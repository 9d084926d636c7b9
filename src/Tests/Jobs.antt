-- ===== src/Tests/Jobs.antt =====
-- The job of a client, from its report to the rates of a server.
use pfstrase.Prelude.{◌≡◌, refl, some, [], ◌∷◌, All, lookup, insert, snprintf, pos}
use pfstrase.Json.Objects.{copy_tag, array_from}
use pfstrase.Json.Sample.{Value, text, number, object, array}
use pfstrase.Stats.Host.{
  Maps, update_host_entry, update_entry, init_entry, new_entry, copy_tags, map_nid, host_name,
}
use pfstrase.Stats.Host.Entries.{field_of}
use pfstrase.Stats.Rates.{calc_rates}
use pfstrase.Stats.Rates.Tags.{IsRateIn, calc_rates-IsRateIn}
use pfstrase.Stats.Tag.{
  tag_stats, tag_hosts, tag_host, tag_entries, tag_entry, tag_client, tag_filesystem, filesystem,
  nid_entry,
}
use pfstrase.Stats.Tag.Data.{Tagged}
use pfstrase.Stats.Tag.Jobs.{Carries, calc_rates-tag_stats}
use pfstrase.Tests.Data.{J, get_or, client_rpc, export_entry, earlier_entry, no_hosts}

calc_rates-IsRateIn_example : All (IsRateIn J (export_entry ∷ [])) (
    J.items (
      calc_rates J J.new_array
        (array (export_entry ∷ []))
        (array (earlier_entry ∷ []))
        (pos 500000)))
calc_rates-IsRateIn_example =
    calc_rates-IsRateIn J (array (export_entry ∷ [])) (array (earlier_entry ∷ [])) (pos 500000)

abbrev server_rpc : Value
server_rpc = object (
    ("hostname", text "oss1")
    ∷ ("obdclass", text "oss")
    ∷ ("time", number (pos 12))
    ∷ ("data", array (export_entry ∷ []))
    ∷ [])

abbrev both_reported : Maps J
both_reported = (update_host_entry J (update_host_entry J no_hosts client_rpc).0 server_rpc).0

abbrev tagged : Maps J
tagged = get_or no_hosts (tag_stats J both_reported)

calc_rates-tag_stats_example :
    (after : Value) × (field_of J tagged "oss1" "data" ≡ some after)
    × Tagged J both_reported (text "oss1") (export_entry ∷ []) (J.items after)
    × All (Carries J "10@o2ib" (text "77") (text "bob") (text "oss1")) (J.items after)
    × ((oda : Value) (idt : J.Double)
        → All
            (Carries J "10@o2ib" (text "77") (text "bob") (text "oss1"))
            (J.items (calc_rates J J.new_array after oda idt)))
unfolding tag_stats tag_hosts tag_host tag_entries tag_entry tag_client tag_filesystem filesystem
    nid_entry copy_tag lookup snprintf insert array_from update_host_entry update_entry init_entry
    new_entry copy_tags map_nid host_name
calc_rates-tag_stats_example =
    calc_rates-tag_stats J no_hosts client_rpc server_rpc (text "c101") (text "oss1")
      (array (export_entry ∷ [])) "10@o2ib" refl refl refl refl refl tagged (text "77") (text "bob")
      refl refl ((refl, tt), (tt, tt)) refl
