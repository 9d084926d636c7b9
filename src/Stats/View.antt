-- ===== src/Stats/View.antt =====
-- server/stats.c, group_ratesbytags: the rates of every server regrouped for display.
-- The object of a group is that of the first row of the group, so summing rows and deriving
-- events also changes server_tag_rate_map: `shared` keeps which row's object each group holds.
pub mod Hidden
pub mod Sums
pub mod Each
pub mod Groups
use pfstrase.Prelude.{
  String, Bool, true, false, ◌&&◌, Option, none, some, List, [], ◌∷◌, ◌++◌, ◌==◌, ◌>>=◌,
  snprintf_format, if◌then◌else◌,
}
use pfstrase.Json.{JsonC}
use pfstrase.Stats.Totals.{add_stats, derived_events}
use pfstrase.Stats.Group.{set_group_tags, select_tags}

-- filter_user, filter_job and filter_server; `none` is NULL.
pub record Filters : Type 0 where
  pub user : Option String
  pub job : Option String
  pub server : Option String

module _ (J : JsonC) where
  open J use {
    Json, new_object, object_add, object_get_ex, entries, get_string, to_json_string, tokener_parse,
  }

  pub record View : Type 0 where
    pub server_tag_rate_map : Json
    pub screen_map : Json

  -- A filter lets a row pass that lacks the tag.
  abbrev pub tag_matches : Option String → Option Json → Bool
  tag_matches none tid = true
  tag_matches (some filter) none = true
  tag_matches (some filter) (some tid) = get_string tid == filter

  abbrev server_matches : Option String → String → Bool
  server_matches none server = true
  server_matches (some filter) server = server == filter

  unfoldable pub passes : Filters → String → Json → Bool
  passes f server cur_tags =
      tag_matches f.user (object_get_ex cur_tags "uid")
      && tag_matches f.job (object_get_ex cur_tags "jid")
      && server_matches f.server server

  pub record Grouping : Type 0 where
    pub tag_rate_map : Json
    pub shared : List (String × String)

  -- The first row of a group lends its object.
  abbrev note_shared :
      Option Json → String → String → List (String × String) → List (String × String)
  note_shared none group tags shared = shared ++ (group, tags) ∷ []
  note_shared (some pre) group tags shared = shared

  -- `char tags_str[256]`
  unfoldable pub merge_row : Grouping → Json → String → Json → Option Grouping
  merge_row g cur_tags tags rates = do
    tags_str ← snprintf_format 256 (to_json_string cur_tags)
    some (record {
      tag_rate_map = add_stats J g.tag_rate_map tags_str rates;
      shared = note_shared (object_get_ex g.tag_rate_map tags_str) tags_str tags g.shared;
    })

  abbrev pub merge_if : Bool → Grouping → Json → String → Json → Option Grouping
  merge_if false g cur_tags tags rates = some g
  merge_if true g cur_tags tags rates = merge_row g cur_tags tags rates

  abbrev pub group_parsed :
      Json → Filters → String → Grouping → String → Json → Option Json → Option Grouping
  group_parsed group_tags f server g tags rates none = some g
  group_parsed group_tags f server g tags rates (some pre_tags) =
      let cur_tags = select_tags J pre_tags new_object (entries group_tags) in
      merge_if (passes f server cur_tags) g cur_tags tags rates

  -- The body of the loop over the rows of a server.
  unfoldable pub group_row :
      Json → Filters → String → Json → Grouping → String → Json → Option Grouping
  group_row group_tags f server time g tags rates =
      if tags == "time"
      then some (record g { tag_rate_map = object_add g.tag_rate_map "time" time })
      else group_parsed group_tags f server g tags rates (tokener_parse tags)

  unfoldable pub group_rows :
      Json → Filters → String → Json → Grouping → List (String × Json) → Option Grouping
  group_rows group_tags f server time g [] = some g
  group_rows group_tags f server time g ((tags, rates) ∷ rest) = do
    next ← group_row group_tags f server time g tags rates
    group_rows group_tags f server time next rest

  abbrev write_back : Json → String → Option Json → Json
  write_back rows tags none = rows
  write_back rows tags (some group) = object_add rows tags group

  unfoldable pub write_shared : Json → Json → List (String × String) → Json
  write_shared rows groups [] = rows
  write_shared rows groups ((group, tags) ∷ rest) =
      write_shared (write_back rows tags (object_get_ex groups group)) groups rest

  -- The groups of one server, and its rows as they are afterwards.
  unfoldable pub group_server : Json → Filters → String → Json → Json → Option (Json × Json)
  group_server group_tags f server time server_rates = do
    g ←
        group_rows group_tags f server time (record { tag_rate_map = new_object; shared = [] })
          (entries server_rates)
    let groups = derived_events J g.tag_rate_map
    some (groups, write_shared server_rates groups g.shared)

  -- The body of the loop over the servers.
  unfoldable pub view_server : Json → Filters → View → String → Json → Option View
  view_server group_tags f v server server_rates = elim (object_get_ex server_rates "time") [
    | none ↦ some v
    | some time ↦ do
      (groups, rows) ← group_server group_tags f server time server_rates
      some (record {
        server_tag_rate_map = object_add v.server_tag_rate_map server rows;
        screen_map = object_add v.screen_map server groups;
      })
  ]

  unfoldable pub view_servers : Json → Filters → View → List (String × Json) → Option View
  view_servers group_tags f v [] = some v
  view_servers group_tags f v ((server, server_rates) ∷ rest) = do
    next ← view_server group_tags f v server server_rates
    view_servers group_tags f next rest

  unfoldable pub group_ratesbytags : List String → Filters → View → Option View
  group_ratesbytags names f v =
      view_servers (set_group_tags J names) f v (entries v.server_tag_rate_map)
