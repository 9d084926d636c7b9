-- ===== src/Collect/Report/Accepted.antt =====
-- What the server makes of a server's report.
use pfstrase.Prelude.{String, ◌≡◌, refl, ◌≢◌, Option, some, snprintf, eq_refl, ℕ, lookup}
use pfstrase.Json.{JsonC}
use pfstrase.Json.Objects.{object_get_ex-object_add}
use pfstrase.Stats.Host.{Maps, host_name, update_host_entry}
use pfstrase.Stats.Host.Entries.{field_of, field_of-update_host_entry}
use pfstrase.Collect.{Machine}
use pfstrase.Collect.Exports.{DeviceClass, mds, oss, osc}
use pfstrase.Collect.Exports.Keys.{collect_exports-Keeps}
use pfstrase.Collect.Units.{UnitsFit}
use pfstrase.Collect.Devices.{DeviceInfo, collect_target}
use pfstrase.Collect.Report.{
  Sysinfo, add_owner, collect_class, collect_devices, collect_cpu, collect_sysinfo,
}

module _ (J : JsonC) (env : Machine) where
  open J use {Double, Json, object_get_ex, new_object, new_string}

  module _ (sysinfo : Option Sysinfo) (to_float : ℕ → Double) where
    -- A report names its host and its class, and has data.
    record IsReport (info : DeviceInfo) (rpc : Json) : Type 0 where
      pub hostname : object_get_ex rpc "hostname" ≡ some (new_string info.hostname)
      pub obdclass : object_get_ex rpc "obdclass" ≡ some (new_string info.class_str)
      pub data_json : Json
      pub sent : object_get_ex rpc "data" ≡ some data_json

    class-total :
        (info : DeviceInfo) (class : DeviceClass) (a : Json)
        → UnitsFit env
        → class ≢ osc
        → (data_json : Json) × (collect_class J env sysinfo to_float info class a ≡ some data_json)
    unfolding collect_class collect_target
    class-total info mds a fits server =
        let (rc, read, keeps) = collect_exports-Keeps J env mds a fits server in rw read (_, refl)
    class-total info oss a fits server =
        let (rc, read, keeps) = collect_exports-Keeps J env oss a fits server in rw read (_, refl)
    class-total info osc a fits server = absurd (server refl)

    owner-none :
        (info : DeviceInfo) (class : DeviceClass) (o : Json)
        → class ≢ osc
        → add_owner J env sysinfo to_float info class o ≡ o
    unfolding add_owner
    owner-none info mds o server = refl
    owner-none info oss o server = refl
    owner-none info osc o server = absurd (server refl)

    report :
        (info : DeviceInfo)
        → UnitsFit env
        → info.class ≢ osc
        → (rpc : Json) × (collect_devices J env sysinfo to_float info new_object ≡ some rpc)
          × IsReport info rpc
    unfolding collect_devices
    report info fits server =
        let gone : (o : Json) → add_owner J env sysinfo to_float info info.class o ≡ o =
          λ o. owner-none info info.class o server in
        let first = collect_cpu J env (collect_sysinfo J env sysinfo to_float J.new_array).0 in
        let (data_json, total) = class-total info info.class first.0 fits server in
        rw total (
          _,
          refl,
          record {
            hostname = simp (object_get_ex-object_add, gone);
            obdclass = simp (object_get_ex-object_add, gone);
            data_json = data_json;
            sent = simp (object_get_ex-object_add, gone);
          },
        )

    -- Where the units in the files are words of at most 15 bytes, a server's report is made, and once update_host_entry has taken it in, whatever the maps
    -- held before, the entry of the host, by its name of at most 63 bytes, shows the
    -- host's name, its class and the data of the report.
    pub update_host_entry-collect_devices :
        (info : DeviceInfo)
        → UnitsFit env
        → info.class ≢ osc
        → (m : Maps J)
        → (rpc : Json) × (data_json : Json) × (collect_devices J env sysinfo to_float info
              new_object
            ≡ some rpc)
          × (object_get_ex rpc "data" ≡ some data_json)
          × (field_of J (update_host_entry J m rpc).0 (snprintf 64 info.hostname) "data"
              ≡ some data_json)
          × (field_of J (update_host_entry J m rpc).0 (snprintf 64 info.hostname) "hid"
              ≡ some (new_string info.hostname))
          × (field_of J (update_host_entry J m rpc).0 (snprintf 64 info.hostname) "obdclass"
              ≡ some (new_string info.class_str))
    unfolding host_name lookup
    update_host_entry-collect_devices info fits server m =
        let (rpc, sent, r) = report info fits server in
        let name : host_name J (new_string info.hostname) ≡ snprintf 64 info.hostname =
          rw J.get_string-new_string in
        let field = λ (f : String).
          field_of-update_host_entry J m rpc (new_string info.hostname) r.hostname
            (snprintf 64 info.hostname) f in
        (
          rpc,
          r.data_json,
          sent,
          r.sent,
          rw (field "data", name, eq_refl, r.sent),
          rw (field "hid", name, eq_refl, r.hostname),
          rw (field "obdclass", name, eq_refl, r.obdclass),
        )
