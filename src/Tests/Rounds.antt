-- ===== src/Tests/Rounds.antt =====
-- A server that gets two reports of a host, each before a round of its timer.
use pfstrase.Prelude.{
  true, String, refl, some, none, [], ◌∷◌, lookup, insert, snprintf, pos, ℕ, ◌==◌, if◌then◌else◌,
  snprintf_format, format, snprintf_joined,
}
use pfstrase.Json.{JsonC}
use pfstrase.Json.Objects.{copy_tag, array_from, foreach_add}
use pfstrase.Json.Sample.{Value, sample, text, number, object, array}
use pfstrase.Stats.Host.{
  update_host_map, update_host_entry, update_entry, init_entry, new_entry, copy_tags, map_nid,
  host_name,
}
use pfstrase.Stats.Tag.{
  tag_stats, tag_hosts, tag_host, tag_entries, tag_entry, tag_client, tag_filesystem, filesystem,
  nid_entry,
}
use pfstrase.Stats.Group.{
  group_statsbytags, group_hosts, group_host, update_report, keep_report, store_outcome,
  set_group_tags, tag_names, update_rates, with_rates, host_tag_map, host_maps, is_class,
  aggregate_stat, aggregate_entries, aggregate_entry, stats_of_type, select_tags, count_client,
  add_loads,
}
use pfstrase.Stats.Totals.{add_stats}
use pfstrase.Stats.Rates.{
  calc_rates, new_rates, old_map, add_old, rate_key, rate_of, rate_tags, event_rates, delta,
}
use pfstrase.Prelude.Int.{◌+ℤ◌, ◌-ℤ◌}
use pfstrase.Shm.{set_shm_map, make_buffer, copy_map}
use pfstrase.Rpc.{packet, sock_rpc, process_rpc, recv_loop, starts_json}
use pfstrase.Rpc.Listen.{accept, socket_listen}
use pfstrase.Conf.{map_server}
use pfstrase.Programs.{default_arguments}
use pfstrase.Programs.Server.{
  Server, Event, started, start_server, handle, sock_rpc_cb, shm_timer_cb, start, next, step,
}
use pfstrase.Programs.Server.Rounds.{HostRound, shm_timer_cb-HostRound}
use pfstrase.Tests.Data.{listening, get_or, export_entry, earlier_entry}

abbrev report_at : ℕ → Value → Value
report_at time entry = object (
    ("hostname", text "oss1")
    ∷ ("obdclass", text "oss")
    ∷ ("time", number (pos time))
    ∷ ("data", array (entry ∷ []))
    ∷ [])

-- A library that reads two texts as the reports of a server, one later than the other.
abbrev R : JsonC
R =
    sample (λ s.
      if s == "{}" then some (report_at 12 earlier_entry) else some (report_at 15 export_entry))

abbrev shown : R.Double → String
shown d = "3.000000"

abbrev first : Server R shown
first = started R shown map_server listening (default_arguments map_server)

abbrev after : Event → Server R shown → Server R shown
after e s = get_or s (handle R shown (λ line. none) (λ name. none) map_server e s)

abbrev arrives : String → Event
arrives s = sock_rpc_cb (packet s ∷ [])

abbrev has_report : Server R shown
has_report = after (arrives "{2}") (after shm_timer_cb (after (arrives "{}") first))

abbrev after_round : Server R shown
after_round = after shm_timer_cb has_report

abbrev entry : Value
entry = get_or (object []) (R.object_get_ex has_report.maps.host_map "oss1")

shm_timer_cb-HostRound_example :
    HostRound R has_report.maps after_round.maps "oss1" entry
      (number (pos 15))
      (array (export_entry ∷ []))
unfolding start_server handle accept socket_listen sock_rpc process_rpc recv_loop starts_json
    update_host_map update_host_entry update_entry init_entry new_entry copy_tags map_nid host_name
    copy_tag array_from lookup insert snprintf set_shm_map make_buffer copy_map tag_stats tag_hosts
    tag_host tag_entries tag_entry tag_client tag_filesystem filesystem nid_entry group_statsbytags
    group_hosts group_host update_report keep_report store_outcome set_group_tags tag_names
    update_rates with_rates host_tag_map host_maps is_class aggregate_stat aggregate_entries
    aggregate_entry stats_of_type select_tags count_client add_loads add_stats foreach_add
    calc_rates new_rates old_map add_old rate_key rate_of rate_tags event_rates delta
    snprintf_format format snprintf_joined ◌+ℤ◌ ◌-ℤ◌
shm_timer_cb-HostRound_example =
    shm_timer_cb-HostRound R shown (λ line. none) (λ name. none) (λ info. true) map_server listening
      (default_arguments map_server) first has_report after_round "oss1" entry (number (pos 15))
      (array (export_entry ∷ [])) refl
      (next
        (next (next start (step (arrives "{}") refl refl refl)) (step shm_timer_cb refl refl refl))
        (step (arrives "{2}") refl refl refl))
      refl refl refl refl
