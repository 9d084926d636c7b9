-- ===== src/Stats/Tag.antt =====
-- server/stats.c, tag_stats: the exports of every server are tagged with their client's names.
-- `none` stands for a write outside the buffer `target`.
pub mod Fields
pub mod Hosts
pub mod Each
pub mod Data
pub mod Jobs
use pfstrase.Prelude.{
  String, ◌-◌, Option, none, some, List, [], ◌∷◌, len, slice, snprintf, leb, lookup, ◌>>=◌,
  if◌then◌else◌,
}
use pfstrase.Json.{JsonC}
use pfstrase.Json.Objects.{copy_tag, array_from}
use pfstrase.Stats.Host.{Maps}

-- `char target[32]`, cut 8 bytes before its end: the target without its suffix, as `-OST0000`.
unfoldable pub filesystem : String → Option String
filesystem s =
    let target = snprintf 32 s in
    if leb 8 (len target) then some (slice target 0 (len target - 8)) else none

module _ (J : JsonC) where
  open J use {Json, new_array, object_add, object_get_ex, entries, items, new_string, get_string}

  -- `json_object_object_get_ex(nid_map, …, &nid_entry)`
  unfoldable pub nid_entry : Maps J → String → Option Json
  nid_entry m nid = do h ← lookup nid m.nid_map; object_get_ex m.host_map h

  -- The names of the node, if it is known, in place of those that stand for none.
  abbrev pub name_client : Option Json → Json → Json
  name_client none marked = marked
  name_client (some node) marked = copy_tag J node "uid" "uid" (
      copy_tag J node "jid" "jid"
        (copy_tag J node "system" "system" (copy_tag J node "hid" "client" marked)))

  unfoldable pub tag_client : Maps J → Json → Json → Json
  tag_client m nid entry =
      let named = object_add entry "client" nid in
      let marked = object_add named "system" (new_string "*") in
      let marked = object_add marked "jid" (new_string "*") in
      let marked = object_add marked "uid" (new_string "*") in
      let marked = object_add marked "fid" (new_string "*") in
      name_client (nid_entry m (get_string nid)) marked

  -- `Tag with filesystem name`
  unfoldable pub tag_filesystem : Json → Option Json
  tag_filesystem entry = elim (object_get_ex entry "target") [
    | none ↦ some entry
    | some tag ↦ do
      name ← filesystem (get_string tag)
      some (object_add entry "fid" (new_string name))
  ]

  -- The body of the loop over the data of one server.
  unfoldable pub tag_entry : Maps J → Json → Json → Option Json
  tag_entry m server entry =
      let owned = object_add entry "server" server in
      elim (object_get_ex owned "client_nid") [
        | none ↦ some owned
        | some nid ↦ tag_filesystem (tag_client m nid owned)
      ]

  unfoldable pub tag_entries : Maps J → Json → List Json → Option (List Json)
  tag_entries m server [] = some []
  tag_entries m server (entry ∷ rest) = do
    tagged ← tag_entry m server entry
    others ← tag_entries m server rest
    some (tagged ∷ others)

  -- The elements of the array change in place: the entry holds an array of the changed elements.
  unfoldable pub tag_host : Maps J → String → Json → Option Json
  tag_host m key host_entry = elim (object_get_ex host_entry "data") [
    | none ↦ some host_entry
    | some data_array ↦ do
      tagged ← tag_entries m (new_string key) (items data_array)
      some (object_add host_entry "data" (array_from J new_array tagged))
  ]

  unfoldable pub tag_hosts : Maps J → List (String × Json) → Option (Maps J)
  tag_hosts m [] = some m
  tag_hosts m ((key, host_entry) ∷ rest) = do
    tagged ← tag_host m key host_entry
    tag_hosts (record m { host_map = object_add m.host_map key tagged }) rest

  unfoldable pub tag_stats : Maps J → Option (Maps J)
  tag_stats m = tag_hosts m (entries m.host_map)
