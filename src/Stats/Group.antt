-- ===== src/Stats/Group.antt =====
-- server/stats.c, is_class, aggregate_stat and group_statsbytags: the server's rates by tags.
-- `none` stands for undefined behaviour of the format string that prints a group's tags.
pub mod Updates
pub mod Each
pub mod Both
pub mod Clients
pub mod Counted
pub mod Published
use pfstrase.Prelude.{
  String, Bool, true, false, not, Option, none, some, List, [], ◌∷◌, ◌==◌, ◌>>=◌, pos,
  snprintf_format, if◌then◌else◌,
}
use pfstrase.Json.{JsonC}
use pfstrase.Json.Objects.{copy_tag, foreach_add}
use pfstrase.Stats.Host.{Maps}
use pfstrase.Stats.Rates.{calc_rates}
use pfstrase.Stats.Totals.{add_stats, zero_double}

module _ (J : JsonC) where
  open J use {
    Double, of_ℤ, sub, div, le, Json, new_object, object_add, object_get_ex, entries, new_array,
    items, new_string, get_string, new_int64, get_double, to_json_string, null,
  }

  -- `char tag_str[32]`
  unfoldable pub is_class : Json → String → Option Bool
  is_class host_entry class = elim (object_get_ex host_entry "obdclass") [
    | none ↦ some false
    | some tag ↦ do tag_str ← snprintf_format 32 (get_string tag); some (class == tag_str)
  ]

  -- The names of the tags to group by, as an object.
  unfoldable pub tag_names : Json → List String → Json
  tag_names names [] = names
  tag_names names (name ∷ rest) = tag_names (object_add names name (new_string "")) rest

  unfoldable pub set_group_tags : List String → Json
  set_group_tags names = tag_names new_object names

  -- The tags of an object that are grouped by, in the order of the names.
  unfoldable pub select_tags : Json → Json → List (String × Json) → Json
  select_tags from tags [] = tags
  select_tags from tags ((name, _) ∷ rest) = select_tags from (copy_tag J from name name tags) rest

  -- The clients counted so far, and the stats with their number of new clients.
  abbrev count_new : Json → Json → String → Option Json → Json × Json
  count_new clients stats nid (some tmp) = (clients, stats)
  count_new clients stats nid none =
      (object_add clients nid (new_string ""), object_add stats "nclients" (new_int64 (pos 1)))

  unfoldable pub count_client : Json → Json → Json → Json × Json
  count_client clients entry stats =
      let counted = object_add stats "nclients" (new_int64 (pos 0)) in
      elim (object_get_ex entry "client_nid") [
        | none ↦ (clients, counted)
        | some tid ↦
            count_new clients counted (get_string tid) (object_get_ex clients (get_string tid))
      ]

  -- The stats of a rate, if it is of the type.
  unfoldable pub stats_of_type : String → Json → Option Json
  stats_of_type stat_type entry = do
    stats ← object_get_ex entry "stats"
    tid ← object_get_ex entry "stats_type"
    if stat_type == get_string tid then some stats else none

  -- The body of the loop over the rates, with `char tags_str[256]`.
  unfoldable pub aggregate_entry : Json → Json → Json × Json → Json → Option (Json × Json)
  aggregate_entry tag_tuple entry (clients, tag_map) stats = do
    tags_str ←
        snprintf_format 256 (to_json_string (select_tags entry new_object (entries tag_tuple)))
    let (clients', stats') = count_client clients entry stats
    some (clients', add_stats J tag_map tags_str stats')

  abbrev aggregate_if : Json → Json → Json × Json → Option Json → Option (Json × Json)
  aggregate_if tag_tuple entry s none = some s
  aggregate_if tag_tuple entry s (some stats) = aggregate_entry tag_tuple entry s stats

  unfoldable pub aggregate_entries : Json → String → Json × Json → List Json → Option (Json × Json)
  aggregate_entries tag_tuple stat_type s [] = some s
  aggregate_entries tag_tuple stat_type s (entry ∷ rest) = do
    s' ← aggregate_if tag_tuple entry s (stats_of_type stat_type entry)
    aggregate_entries tag_tuple stat_type s' rest

  unfoldable pub aggregate_stat : Json → Json → String → Json → Option Json
  aggregate_stat host_entry tag_tuple stat_type tag_map = elim (object_get_ex host_entry "rates") [
    | none ↦ some tag_map
    | some da ↦ do
      s ← aggregate_entries tag_tuple stat_type (new_object, tag_map) (items da)
      some s.1
  ]

  abbrev pub aggregate_class : Bool → Json → Json → String → Json → Option Json
  aggregate_class false host_entry tag_tuple class tag_map = some tag_map
  aggregate_class true host_entry tag_tuple class tag_map =
      aggregate_stat host_entry tag_tuple class tag_map

  -- The lookup leaves NULL where a CPU entry has no event "system".
  abbrev pub or_null : Option Json → Json
  or_null none = null
  or_null (some v) = v

  -- `Get cpu load due to kernel as well`
  unfoldable pub add_loads : Json → List (String × Json) → Json
  add_loads tag_map [] = tag_map
  add_loads tag_map ((_, cpu_entry) ∷ rest) =
      let system = or_null (object_get_ex cpu_entry "system") in
      add_loads
        (foreach_add J (λ tags tag_entry _. object_add tag_entry "load" system) tag_map
          (entries tag_map))
        rest

  -- `tag_map` and `cpu_map`, from the rates in a server's entry
  unfoldable pub host_maps : Json → Json → Option (Json × Json)
  host_maps group_tags host_entry = do
    mds ← is_class host_entry "mds"
    with_mds ← aggregate_class mds host_entry group_tags "mds" new_object
    oss ← is_class host_entry "oss"
    with_oss ← aggregate_class oss host_entry group_tags "oss" with_mds
    cpu_map ← aggregate_stat host_entry group_tags "cpu" new_object
    some (with_oss, cpu_map)

  -- The groups of one server.
  unfoldable pub host_tag_map : Json → Json → Json → Option Json
  host_tag_map group_tags host_entry ntime = do
    (tag_map, cpu_map) ← host_maps group_tags host_entry
    some (object_add (add_loads tag_map (entries cpu_map)) "time" ntime)

  -- The entry with the report kept as the old one.
  unfoldable pub keep_report : Json → Json → Json → Json
  keep_report host_entry ntime nda = object_add (object_add host_entry "otime" ntime) "odata" nda

  unfoldable pub with_rates : Json → Json → Json → Double → Json
  with_rates host_entry nda oda idt =
      object_add host_entry "rates" (calc_rates J new_array nda oda idt)

  -- What one round of the loop leaves: the host's entry, and its groups if they are new.
  abbrev pub Outcome : Type 0
  Outcome = Json × Option Json

  -- From here on there is an old report, taken at another time.
  unfoldable pub update_rates : Json → Json → Json → Json → Double → Option Outcome
  update_rates group_tags host_entry ntime nda idt = elim (object_get_ex host_entry "odata") [
    | none ↦ some (object_add host_entry "odata" nda, none)
    | some oda ↦
        let updated = keep_report (with_rates host_entry nda oda idt) ntime nda in
        do tag_map ← host_tag_map group_tags updated ntime; some (updated, some tag_map)
  ]

  unfoldable pub update_report : Json → Json → Json → Json → Option Outcome
  update_report group_tags host_entry ntime nda = elim (object_get_ex host_entry "otime") [
    | none ↦ some (keep_report host_entry ntime nda, none)
    | some otime ↦
        let dt = sub (get_double ntime) (get_double otime) in
        if le dt (zero_double J)
        then some (host_entry, none)
        else update_rates group_tags host_entry ntime nda (div (of_ℤ (pos 1)) dt)
  ]

  -- The body of the loop over the hosts.
  unfoldable pub group_host : Json → Json → Option Outcome
  group_host group_tags host_entry = elim (object_get_ex host_entry "time") [
    | none ↦ some (host_entry, none)
    | some ntime ↦ elim (object_get_ex host_entry "data") [
      | none ↦ some (host_entry, none)
      | some nda ↦ update_report group_tags host_entry ntime nda
    ]
  ]

  abbrev pub publish : Json → String → Option Json → Json
  publish rates server none = rates
  publish rates server (some tag_map) = object_add rates server tag_map

  unfoldable pub store_outcome : Maps J → String → Outcome → Maps J
  store_outcome m server (host_entry, tag_map) = record m {
    host_map = object_add m.host_map server host_entry;
    server_tag_rate_map = publish m.server_tag_rate_map server tag_map;
  }

  unfoldable pub group_hosts : Json → Maps J → List (String × Json) → Option (Maps J)
  group_hosts group_tags m [] = some m
  group_hosts group_tags m ((server, host_entry) ∷ rest) = do
    outcome ← group_host group_tags host_entry
    group_hosts group_tags (store_outcome m server outcome) rest

  unfoldable pub group_statsbytags : List String → Maps J → Option (Maps J)
  group_statsbytags names m = group_hosts (set_group_tags names) m (entries m.host_map)
