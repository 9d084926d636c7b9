-- ===== src/Collect/Report.antt =====
-- client/cpu.c and sysinfo.c, and collect_devices of client/collect.c: a whole report.
-- `none` stands for a write outside a name.
pub mod Accepted
use pfstrase.Prelude.{
  ℕ, ◌*◌, String, Option, none, some, List, [], ◌∷◌, ◌==◌, ◌>>=◌, ℤ, pos, negsuc, len, slice,
  if◌then◌else◌,
}
use pfstrase.Json.{JsonC}
use pfstrase.Collect.{Machine, count_json, add_entry}
use pfstrase.Collect.Exports.{DeviceClass, mds, oss, osc, collect_exports}
use pfstrase.Collect.Devices.{DeviceInfo, collect_target, collect_llite, collect_osc}

-- What sysinfo() returns.
pub record Sysinfo : Type 0 where
  pub loads : ℕ × ℕ × ℕ
  pub mem_unit : ℕ
  pub freeram : ℕ
  pub bufferram : ℕ
  pub totalram : ℕ

module _ (J : JsonC) (env : Machine) where
  open J use {
    Double, of_ℤ, add, mul, div, Json, new_object, object_add, new_string, new_double, new_array,
  }

  abbrev nth : List ℕ → ℕ → ℕ
  nth [] i = 0
  nth (x ∷ xs) ℕ.zero = x
  nth (x ∷ xs) (ℕ.suc i) = nth xs i

  -- The numbers of the first line that starts with "cpu ", and none where there is no such line.
  unfoldable pub cpu_numbers : List String → List ℕ
  cpu_numbers [] = []
  cpu_numbers (line ∷ rest) =
      if slice line 0 4 == "cpu "
      then env.scan_numbers (slice line 4 (len line))
      else cpu_numbers rest

  unfoldable pub cpu_stats : List ℕ → Json
  cpu_stats n =
      let stats = object_add new_object "user" (count_json J env (nth n 0)) in
      let stats = object_add stats "nice" (count_json J env (nth n 1)) in
      let stats = object_add stats "system" (count_json J env (nth n 2)) in
      let stats = object_add stats "idle" (count_json J env (nth n 3)) in
      let stats = object_add stats "iowait" (count_json J env (nth n 4)) in
      let stats = object_add stats "irq" (count_json J env (nth n 5)) in
      object_add stats "softirq" (count_json J env (nth n 6))

  unfoldable pub collect_cpu : Json → Json × ℤ
  collect_cpu jarray = elim (env.fopen "/proc/stat") [
    | none ↦ (jarray, negsuc 0)
    | some lines ↦ (
      add_entry J env jarray (object_add new_object "stats_type" (new_string "cpu"))
          (cpu_stats (cpu_numbers lines)),
      pos 0,
    )
  ]

  -- `f_load*loads`, with the conversion of `loads` to float
  module _ (sysinfo : Option Sysinfo) (to_float : ℕ → Double) where
    unfoldable pub load_json : ℕ → Json
    load_json load = new_double (mul (to_float load) (div (of_ℤ (pos 1)) (of_ℤ (pos 65536))))

    unfoldable pub sysinfo_stats : Sysinfo → Json
    sysinfo_stats s =
        let stats = object_add new_object "loadavg1m" (load_json s.loads.0) in
        let stats = object_add stats "loadavg5m" (load_json s.loads.1) in
        let stats = object_add stats "loadavg15m" (load_json s.loads.2) in
        let stats = object_add stats "loadavg15m" (load_json s.loads.2) in
        let stats = object_add stats "freeram" (count_json J env (s.mem_unit * s.freeram)) in
        let stats = object_add stats "bufferram" (count_json J env (s.mem_unit * s.bufferram)) in
        object_add stats "totalram" (count_json J env (s.mem_unit * s.totalram))

    unfoldable pub collect_sysinfo : Json → Json × ℤ
    collect_sysinfo jarray = elim sysinfo [
      | none ↦ (jarray, negsuc 0)
      | some s ↦ (
        add_entry J env jarray (object_add new_object "stats_type" (new_string "sysinfo"))
            (sysinfo_stats s),
        pos 0,
      )
    ]

    -- `info->class == OSC`
    unfoldable pub add_owner : DeviceInfo → DeviceClass → Json → Json
    add_owner info osc jobj =
        object_add (object_add jobj "jid" (new_string info.jid)) "uid" (new_string info.uid)
    add_owner info _ jobj = jobj

    -- What a device's class adds to the data.
    unfoldable pub collect_class : DeviceInfo → DeviceClass → Json → Option Json
    collect_class info osc data_json = do
      llite ← collect_llite J env info data_json
      both ← collect_osc J env info llite.0
      some both.0
    collect_class info class data_json = do
      exports ← collect_exports J env class data_json
      both ← collect_target J env class exports.0
      some both.0

    unfoldable pub collect_devices : DeviceInfo → Json → Option Json
    collect_devices info jobj =
        let nano = div (of_ℤ (pos 1)) (of_ℤ (pos 1000000000)) in
        let jobj =
          object_add jobj "time"
            (new_double (add (of_ℤ info.tv_sec) (mul nano (of_ℤ info.tv_nsec)))) in
        let jobj = object_add jobj "obdclass" (new_string info.class_str) in
        let jobj = object_add jobj "hostname" (new_string info.hostname) in
        let jobj = object_add jobj "nid" (new_string info.nid) in
        let owned = add_owner info info.class jobj in
        do
          data_json ← collect_class info info.class (collect_cpu (collect_sysinfo new_array).0).0
          some (object_add owned "data" data_json)
