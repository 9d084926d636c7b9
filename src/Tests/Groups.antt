-- ===== src/Tests/Groups.antt =====
-- Groups, and the map that the server shares.
use pfstrase.Stats.Totals.Sums.{add_all}
use pfstrase.Stats.Group.Clients.{is_some, contains, total, typed_stats, client_nids}
use pfstrase.Stats.Group.Counted.{Shown, aggregate_entries-clients}
use pfstrase.Prelude.{
  ℕ, String, List, length, ◌+◌, ◌≤◌, ◌≡◌, refl, [], ◌∷◌, lookup, insert, arith, pos,
  snprintf_format, format, snprintf_joined,
}
use pfstrase.Json.Objects.{copy_tag}
use pfstrase.Json.Sample.{Value, text, number, object}
use pfstrase.Stats.Group.{
  set_group_tags, tag_names, aggregate_entries, stats_of_type, aggregate_entry, select_tags,
}
use pfstrase.Shm.Protocol.{
  server_init, Step, here, next, wait_read, parse_error, mutual_exclusion, parse_error_blocks,
}
use pfstrase.Tests.Data.{J, get_or}

abbrev by_fid : Value
by_fid = set_group_tags J ("fid" ∷ [])

mutual_exclusion_example : 0 + 1 ≤ 1
mutual_exclusion_example =
    mutual_exclusion J "" (record (server_init "") { sem = 0; reading = 1 })
      (next here (wait_read 0 refl refl))

parse_error_blocks_example :
    ¬ Step J
      (record (server_init "") { sem = 0; gone = 1 })
      (record (server_init "") { sem = 0; writing = 1; gone = 1 })
parse_error_blocks_example =
    parse_error_blocks J "" (record (server_init "") { sem = 0; gone = 1 })
      (record (server_init "") { sem = 0; writing = 1; gone = 1 })
      (next (next here (wait_read 0 refl refl)) (parse_error 0 refl refl refl)) (omega arith)

-- Two exports of one client, of two file systems.
abbrev rate_on : String → Value
rate_on fid = object (
    ("stats", object (("write", number (pos 40)) ∷ []))
    ∷ ("stats_type", text "oss")
    ∷ ("client_nid", text "10@o2ib")
    ∷ ("fid", text fid)
    ∷ [])

abbrev two_rates : List Value
two_rates = rate_on "scratch" ∷ rate_on "work" ∷ []

abbrev aggregated : Value × Value
aggregated =
    get_or (object [], object [])
      (aggregate_entries J by_fid "oss" (J.new_object, object []) two_rates)

aggregate_entries-clients_example :
    (added : List (String × Value)) × (ns : List ℕ) × Shown J
      (typed_stats J "oss" two_rates)
      added
      ns
    × (aggregated.1 ≡ add_all J (object []) added)
    × (length (J.entries aggregated.0) ≡ total ns)
    × ((nid : String)
        → is_some (J.object_get_ex aggregated.0 nid) ≡ contains nid (client_nids J "oss" two_rates))
unfolding set_group_tags tag_names aggregate_entries stats_of_type aggregate_entry select_tags
    copy_tag snprintf_format format snprintf_joined lookup insert
aggregate_entries-clients_example =
    aggregate_entries-clients J by_fid (object []) "oss" two_rates aggregated.0 aggregated.1 refl
