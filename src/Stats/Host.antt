-- ===== src/Stats/Host.antt =====
-- server/stats.c, update_host_entry and update_host_map: what an RPC changes in the maps.
-- The code stores the object of a host under its name in host_map, and the same object again under
-- a node id in nid_map. A host's object is created once and never replaced, so its name stands
-- for it: `nid_map` keeps the name of the host whose object it shares.
pub mod Entries
pub mod Nodes
pub mod Distinct
use pfstrase.Prelude.{
  String, Option, none, some, List, [], ◌∷◌, ℤ, pos, negsuc, lookup, insert, snprintf,
  if◌then◌else◌,
}
use pfstrase.Json.{JsonC}
use pfstrase.Json.Objects.{copy_tag}

module _ (J : JsonC) where
  open J use {
    Json, new_object, object_add, object_get_ex, items, is_array, new_string, get_string,
    tokener_parse,
  }

  pub record Maps : Type 0 where
    pub host_map : Json
    pub nid_map : List (String × String)
    pub server_tag_rate_map : Json

  -- The entry of a host that is not known yet.
  unfoldable pub new_entry : Json
  new_entry = object_add (object_add new_object "jid" (new_string "*")) "uid" (new_string "*")

  -- `init host_entry of hostmap if does not exist`
  unfoldable pub init_entry : Maps → String → Maps
  init_entry m hostname = elim (object_get_ex m.host_map hostname) [
    | none ↦ record m { host_map = object_add m.host_map hostname new_entry }
    | some entry ↦ m
  ]

  -- The fields that an RPC carries over into the entry of its host.
  unfoldable pub copy_tags : Json → Json → Json
  copy_tags rpc entry = copy_tag J rpc "data" "data" (
      copy_tag J rpc "obdclass" "obdclass" (
        copy_tag J rpc "uid" "uid" (
          copy_tag J rpc "jid" "jid" (
            copy_tag J rpc "system" "system"
              (copy_tag J rpc "hostname" "hid" (copy_tag J rpc "time" "time" entry))))))

  -- `else if`: only an RPC without data names the node id of its host.
  unfoldable pub map_nid : Json → String → List (String × String) → List (String × String)
  map_nid rpc hostname nids = elim (object_get_ex rpc "data") [
    | some tag ↦ nids
    | none ↦ elim (object_get_ex rpc "nid") [
      | some tag ↦ insert (get_string tag) hostname nids
      | none ↦ nids
    ]
  ]

  unfoldable pub update_entry : Json → String → Maps → Maps
  update_entry rpc hostname m = elim (object_get_ex m.host_map hostname) [
    | none ↦ m
    | some entry ↦ record m {
      host_map = object_add m.host_map hostname (copy_tags rpc entry);
      nid_map = map_nid rpc hostname m.nid_map;
    }
  ]

  -- `char hostname[64]`
  unfoldable pub host_name : Json → String
  host_name tag = snprintf 64 (get_string tag)

  -- The maps after the RPC, and the return code.
  unfoldable pub update_host_entry : Maps → Json → Maps × ℤ
  update_host_entry m rpc = elim (object_get_ex rpc "hostname") [
    | none ↦ (m, negsuc 0)
    | some tag ↦ (update_entry rpc (host_name tag) (init_entry m (host_name tag)), pos 1)
  ]

  -- The loop over the elements of an RPC that is an array; the return codes are not read.
  unfoldable pub update_host_entries : Maps → List Json → Maps
  update_host_entries m [] = m
  update_host_entries m (rpc ∷ rest) = update_host_entries (update_host_entry m rpc).0 rest

  unfoldable pub update_host_map : Maps → String → Maps × ℤ
  update_host_map m rpc = elim (tokener_parse rpc) [
    | none ↦ (m, negsuc 0)
    | some rpc_json ↦ (
      if is_array rpc_json
          then update_host_entries m (items rpc_json)
          else (update_host_entry m rpc_json).0,
      pos 1,
    )
  ]
