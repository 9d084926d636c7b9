-- ===== src/Tests/Viewer.antt =====
-- The viewer.
use pfstrase.Stats.View.{group_row, merge_row, passes}
use pfstrase.Stats.View.Sums.{passing_rows}
use pfstrase.Stats.Totals.{add_stats}
use pfstrase.Stats.Totals.Sums.{event_of, tally}
use pfstrase.Stats.Group.{tag_names, select_tags}
use pfstrase.Json.Objects.{copy_tag}
use pfstrase.Tests.Data.{get_or}
use pfstrase.Stats.View.{View, group_ratesbytags, view_servers, view_server, group_server}
use pfstrase.Stats.View.Groups.{group_ratesbytags-sums}
use pfstrase.Stats.Totals.{derived_events}
use mathlib.Core.List.{Perm}
use mathlib.Core.List.Perm
use pfstrase.Prelude.Int.{◌-ℤ◌}
use pfstrase.Screen.Table.{sort_da, da_refresh}
use pfstrase.Screen.Table.Rows.{Permutes, screen_rows, da_refresh-rows}
use pfstrase.Prelude.{
  insert, snprintf_format, format, snprintf_joined, strstr, String, ◌≡◌, refl, true, false, Option,
  none, some, List, [], ◌∷◌, arith, pos, inl, inr, lookup, ◌==◌, if◌then◌else◌,
}
use pfstrase.Json.{JsonC}
use pfstrase.Json.Sample.{Value, sample, text, number, object}
use pfstrase.Stats.Group.{set_group_tags}
use pfstrase.Stats.Host.{Maps}
use pfstrase.Stats.View.{Grouping, group_rows}
use pfstrase.Screen.Keys.{Screen, blank, grouped_by}
use pfstrase.Screen.Keys.Effects.{IsValid}
use pfstrase.Screen.Session.{Options, user, parse_options, session, filters, in_admin_group}
use pfstrase.Screen.Session.Privacy.{session-own_rows}
use pfstrase.Shm.Exchange.{StopsAtEnd}

abbrev viewer : Screen
viewer = record {
  groupby = 0;
  sortbykey = "iops";
  detailed = false;
  scroll_start = pos 0;
  scroll_delta = pos 0;
  da_refresh_flag = true;
  status_bar_time = 0;
  status_bar = blank;
  refresh_pending = false;
  running = true;
}

viewer-IsValid : IsValid viewer
viewer-IsValid = record { choice = omega arith; sorted = inr (inl refl) }

-- The tags of two rows, as their texts parse.
abbrev pub tags_of : String → Option Value
tags_of s =
    if s == "bob's"
    then some (object (("uid", text "bob") ∷ []))
    else if s == "eve's"
    then some (object (("uid", text "eve") ∷ []))
    else none

abbrev pub S : JsonC
S = sample tags_of

abbrev no_groups : Grouping S
no_groups = record { tag_rate_map = object []; shared = [] }

abbrev two_rows : List (String × Value)
two_rows = ("bob's", object []) ∷ ("eve's", object (("write", number (pos 3)) ∷ [])) ∷ []

abbrev bobs_session : Options
bobs_session = record {
  refresh_interval = "3";
  filter_user = some "bob";
  filter_client = none;
  filter_server = none;
  filter_job = none;
}

session-own_rows_example :
    group_rows S
      (set_group_tags S (grouped_by 2))
      (filters bobs_session)
      "oss1"
      (number (pos 1))
      no_groups
      two_rows
    ≡ group_rows S
        (set_group_tags S (grouped_by 2))
        (filters bobs_session)
        "oss1"
        (number (pos 1))
        no_groups
        (("bob's", object []) ∷ [])
unfolding in_admin_group session parse_options lookup
session-own_rows_example =
    session-own_rows S "bob" (20000 ∷ []) (user "eve" ∷ []) bobs_session 2 refl refl refl "oss1"
      (number (pos 1)) no_groups two_rows

-- What the viewer of that user shows of the server, by user.
abbrev timed_rows : Value
timed_rows = object (("time", number (pos 1)) ∷ two_rows)

abbrev unseen : View S
unseen = record { server_tag_rate_map = object (("oss1", timed_rows) ∷ []); screen_map = object [] }

abbrev seen : View S
seen = get_or unseen (group_ratesbytags S (grouped_by 2) (filters bobs_session) unseen)

group_ratesbytags-sums_example :
    (sums : Value) × (added : List (String × Value)) × (passing_rows S
        (set_group_tags S (grouped_by 2))
        (filters bobs_session)
        "oss1"
        (("time", number (pos 1)) ∷ two_rows)
      ≡ some added)
    × ((tags event : String)
        → ("time" == tags) ≡ false
        → event_of S sums tags event ≡ tally S tags event none added)
    × (S.object_get_ex seen.screen_map "oss1" ≡ some (derived_events S sums))
unfolding set_group_tags tag_names select_tags copy_tag group_rows group_row merge_row passes
    snprintf_format format snprintf_joined strstr lookup insert grouped_by add_stats
    group_ratesbytags view_servers view_server group_server
group_ratesbytags-sums_example =
    group_ratesbytags-sums S (grouped_by 2) (filters bobs_session) unseen seen "oss1" timed_rows
      (number (pos 1)) (tt, tt) refl refl (tt, (tt, ((tt, tt), tt))) refl

-- A view with a row that parses and one that does not.
abbrev screen : Value
screen = object (
    (
      "oss1",
      object (
          ("time", number (pos 1))
          ∷ ("bob's", object (("iops", number (pos 3)) ∷ []))
          ∷ ("eve's", object (("iops", number (pos 7)) ∷ []))
          ∷ ("else", object [])
          ∷ []),
    )
    ∷ [])

S-Permutes : Permutes S
S-Permutes a compare ordered = Perm.refl (S.items a)

da_refresh-rows_example :
    Perm
      (S.items (da_refresh S true "iops" screen).scrdata_array)
      (screen_rows S true (S.entries screen))
unfolding sort_da copy_tag lookup insert strstr ◌-ℤ◌
da_refresh-rows_example = da_refresh-rows S true "iops" screen S-Permutes refl

-- A map of rates, which is what any text reads as.
abbrev pub rates : Value
rates = object (("oss1", text "idle") ∷ [])

abbrev pub P : JsonC
P = sample (λ _. some rates)

abbrev pub idle : Maps P
idle = record { host_map = object []; nid_map = []; server_tag_rate_map = rates }

pub rates-StopsAtEnd : StopsAtEnd P rates
rates-StopsAtEnd rest = refl
