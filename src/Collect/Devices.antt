-- ===== src/Collect/Devices.antt =====
-- client/target.c, llite.c and osc.c: a server's targets, and a client's mounts.
-- `none` stands for a write outside a name, or a path that is not set.
use Prim.Native.String.{◌++◌ as append}
use pfstrase.Prelude.{
  ℕ, ◌-◌, String, not, Option, none, some, List, [], ◌∷◌, ◌>>=◌, ℤ, pos, negsuc, len, ltb, slice,
  if◌then◌else◌,
}
use pfstrase.Json.{JsonC}
use pfstrase.Collect.{
  Dirent, Machine, is_listed, joined_path, collect_stats, collect_single, collect_string, add_entry,
}
use pfstrase.Collect.Exports.{DeviceClass, mds, oss, osc}

-- The device's own data, of client/lfs_utils.h.
pub record DeviceInfo : Type 0 where
  pub tv_sec : ℤ
  pub tv_nsec : ℤ
  pub hostname : String
  pub nid : String
  pub jid : String
  pub uid : String
  pub llite_path : String
  pub osc_path : String
  pub oss_nid_path : String
  pub class_str : String
  pub class : DeviceClass

abbrev single_names : List String
single_names = "filesfree" ∷ "filestotal" ∷ "kbytesavail" ∷ "kbytesfree" ∷ "kbytestotal" ∷ []

abbrev llite_names : List String
llite_names =
    "max_cached_mb" ∷ "read_ahead_stats" ∷ "stats" ∷ "statahead_stats" ∷ "unstable_stats" ∷ []

-- The type of a server's targets, which is not set for a client.
abbrev target_type : DeviceClass → Option String
target_type mds = some "mdt"
target_type oss = some "ost"
target_type osc = none

-- A name without its last `n` bytes; the tests of llite.c and osc.c are for 16 only.
unfoldable pub cut_name : ℕ → String → Option String
cut_name n name = if ltb (len name) n then none else some (slice name 0 (len name - n))

module _ (J : JsonC) (env : Machine) where
  open J use {
    Double, of_ℤ, add, mul, div, Json, new_object, object_add, new_string, new_int64, new_double,
    new_array, array_add,
  }

  unfoldable pub collect_singles : String → Json → List String → Json
  collect_singles devpath stats [] = stats
  collect_singles devpath stats (k ∷ rest) =
      collect_singles devpath (collect_single J env (joined_path devpath k) stats k).0 rest

  unfoldable pub collect_all_stats : String → Json → List String → Option Json
  collect_all_stats devpath stats [] = some stats
  collect_all_stats devpath stats (k ∷ rest) = do
    next ← collect_stats J env (joined_path devpath k) stats
    collect_all_stats devpath next.0 rest

  abbrev device_tags : String → String → Json
  device_tags type target =
      object_add (object_add new_object "stats_type" (new_string type)) "target" (new_string target)

  unfoldable pub collect_target_dir : String → String → Json → Dirent → Json
  collect_target_dir type typepath jarray de =
      if is_listed de
      then add_entry J env jarray (device_tags type de.d_name)
          (collect_singles (joined_path typepath de.d_name) new_object single_names)
      else jarray

  unfoldable pub collect_target_dirs : String → String → Json → List Dirent → Json
  collect_target_dirs type typepath jarray [] = jarray
  collect_target_dirs type typepath jarray (de ∷ rest) =
      collect_target_dirs type typepath (collect_target_dir type typepath jarray de) rest

  abbrev target_dirs_in : String → String → Json → Option (List Dirent) → Json × ℤ
  target_dirs_in type typepath jarray none = (jarray, negsuc 0)
  target_dirs_in type typepath jarray (some des) =
      (collect_target_dirs type typepath jarray des, pos 0)

  unfoldable pub collect_target : DeviceClass → Json → Option (Json × ℤ)
  collect_target class jarray = elim (target_type class) [
    | none ↦ none
    | some type ↦ some (
        target_dirs_in type "/proc/fs/lustre/osd-ldiskfs" jarray
          (env.opendir "/proc/fs/lustre/osd-ldiskfs"))
  ]

  unfoldable pub collect_llite_dir : DeviceInfo → Json → Dirent → Option Json
  collect_llite_dir info jarray de =
      if not (is_listed de) then some jarray else if ltb (len de.d_name) 16 then some jarray else do
        target ← cut_name 17 de.d_name
        stats ← collect_all_stats (joined_path info.llite_path de.d_name) new_object llite_names
        some (add_entry J env jarray (device_tags "llite" target) stats)

  unfoldable pub collect_osc_dir : DeviceInfo → Json → Dirent → Option Json
  collect_osc_dir info jarray de =
      if not (is_listed de) then some jarray else if ltb (len de.d_name) 16 then some jarray else do
        target ← cut_name 21 de.d_name
        let tags =
            (collect_string J env
              (joined_path info.oss_nid_path (append de.d_name "/ost_conn_uuid"))
              (device_tags "osc" target) "server_nid").0
        stats ← collect_all_stats (joined_path info.osc_path de.d_name) new_object ("stats" ∷ [])
        some (add_entry J env jarray tags stats)

  unfoldable pub collect_llite_dirs : DeviceInfo → Json → List Dirent → Option Json
  collect_llite_dirs info jarray [] = some jarray
  collect_llite_dirs info jarray (de ∷ rest) = do
    next ← collect_llite_dir info jarray de
    collect_llite_dirs info next rest

  unfoldable pub collect_osc_dirs : DeviceInfo → Json → List Dirent → Option Json
  collect_osc_dirs info jarray [] = some jarray
  collect_osc_dirs info jarray (de ∷ rest) = do
    next ← collect_osc_dir info jarray de
    collect_osc_dirs info next rest

  unfoldable pub collect_llite : DeviceInfo → Json → Option (Json × ℤ)
  collect_llite info jarray = elim (env.opendir info.llite_path) [
    | none ↦ some (jarray, negsuc 0)
    | some des ↦ do next ← collect_llite_dirs info jarray des; some (next, pos 0)
  ]

  unfoldable pub collect_osc : DeviceInfo → Json → Option (Json × ℤ)
  collect_osc info jarray = elim (env.opendir info.oss_nid_path) [
    | none ↦ some (jarray, negsuc 0)
    | some des ↦ do next ← collect_osc_dirs info jarray des; some (next, pos 0)
  ]
