-- ===== src/Collect/Exports.antt =====
-- client/exports.c: collect_exports, what each client does to each target of a server.
pub mod Keys
use Prim.Native.String.{◌++◌ as append}
use pfstrase.Prelude.{
  String, Bool, not, ◌>>=◌, Option, none, some, List, [], ◌∷◌, ℤ, pos, negsuc, snprintf,
  if◌then◌else◌,
}
use pfstrase.Json.{JsonC}
use pfstrase.Collect.{Dirent, Machine, is_listed, joined_path, collect_stats, add_entry}

-- `enum device_class`
pub data DeviceClass : Type 0 where
  mds oss osc : DeviceClass

-- `typepath` and `type`, which are not set for a client.
unfoldable pub exports_of : DeviceClass → Option (String × String)
exports_of mds = some ("/proc/fs/lustre/mdt", "mds")
exports_of oss = some ("/proc/fs/lustre/obdfilter", "oss")
exports_of osc = none

module _ (J : JsonC) (env : Machine) where
  open J use {Json, new_object, object_add, new_string}

  abbrev pub export_tags : String → String → String → Json
  export_tags type target nid =
      object_add
        (object_add (object_add new_object "stats_type" (new_string type)) "target"
          (new_string target))
        "client_nid" (new_string nid)

  -- The body of the loop over the clients of a target.
  unfoldable pub collect_nid : String → String → String → Json → Dirent → Option Json
  collect_nid type target exportpath jarray nidde =
      let path = joined_path exportpath (append nidde.d_name "/stats") in
      if not (is_listed nidde) then some jarray else do
        stats ← collect_stats J env path new_object
        some (add_entry J env jarray (export_tags type target nidde.d_name) stats.0)

  unfoldable pub collect_nids : String → String → String → Json → List Dirent → Option Json
  collect_nids type target exportpath jarray [] = some jarray
  collect_nids type target exportpath jarray (nidde ∷ rest) = do
    next ← collect_nid type target exportpath jarray nidde
    collect_nids type target exportpath next rest

  abbrev pub collect_exportdir :
      String → String → String → Json → Option (List Dirent) → Option Json
  collect_exportdir type target exportpath jarray none = some jarray
  collect_exportdir type target exportpath jarray (some nids) =
      collect_nids type target exportpath jarray nids

  -- The body of the loop over the targets.
  unfoldable pub collect_target_exports : String → String → Json → Dirent → Option Json
  collect_target_exports type typepath jarray typede =
      let exportpath = joined_path typepath (append typede.d_name "/exports") in
      if is_listed typede
      then collect_exportdir type typede.d_name exportpath jarray (env.opendir exportpath)
      else some jarray

  unfoldable pub collect_targets : String → String → Json → List Dirent → Option Json
  collect_targets type typepath jarray [] = some jarray
  collect_targets type typepath jarray (typede ∷ rest) = do
    next ← collect_target_exports type typepath jarray typede
    collect_targets type typepath next rest

  abbrev pub collect_typedir : String → String → Json → Option (List Dirent) → Option (Json × ℤ)
  collect_typedir type typepath jarray none = some (jarray, negsuc 0)
  collect_typedir type typepath jarray (some targets) = do
    next ← collect_targets type typepath jarray targets
    some (next, pos 0)

  -- The array and the return code; `none` for a client, where the path is not set, and for a write
  -- behind the units of a line.
  unfoldable pub collect_exports : DeviceClass → Json → Option (Json × ℤ)
  collect_exports class jarray = elim (exports_of class) [
    | none ↦ none
    | some (typepath, type) ↦ collect_typedir type typepath jarray (env.opendir typepath)
  ]
