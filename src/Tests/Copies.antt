-- ===== src/Tests/Copies.antt =====
-- From the server to the database by way of pfsql.
use pfstrase.Prelude.{
  String, ◌≡◌, refl, true, false, none, some, List, [], ◌∷◌, ◌++◌, map, All, pos, lookup, insert,
  snprintf_format, format, strstr,
}
use pfstrase.Prelude.Int.{wrap32, wrap64, ◌+ℤ◌, ◌-ℤ◌}
use pfstrase.Json.{JsonC}
use pfstrase.Json.Sample.{Value, sample, text, number, object}
use pfstrase.Json.Objects.{copy_tag, foreach_add}
use pfstrase.Stats.Tag.{tag_stats, tag_hosts}
use pfstrase.Stats.Totals.{
  kind, add_stats, sum_event, sum_events, derive_entry, derive_tag, derive_tags, add_share,
  effective_load, effective_loads, derived_events,
}
use pfstrase.Stats.Group.{set_group_tags, tag_names, select_tags, group_statsbytags, group_hosts}
use pfstrase.Stats.View.{
  passes, merge_row, group_row, group_rows, write_shared, group_server, view_server, view_servers,
  group_ratesbytags, View,
}
use pfstrase.Shm.{get_shm_map, set_shm_map, make_buffer, copy_map}
use pfstrase.Shm.Exchange.{StopsAtEnd}
use pfstrase.Buffer.{printed, print_piece, print_pieces}
use pfstrase.Database.{
  pq_connect, end_statement, exec_query, add_record, record_text, tag_pieces, event_pieces,
  row_record, insert_row, insert_rows, insert_server, insert_servers, pq_insert, pq_connect,
}
use pfstrase.Database.Array.{statement, all_records}
use pfstrase.Database.Batches.{Fits}
use pfstrase.Database.Inserts.{view_records, pq_insert-records}
use pfstrase.Conf.{map_server, sql_client}
use pfstrase.Programs.{default_arguments, default_settings, Arguments}
use pfstrase.Programs.Server.{Server, started, no_filters}
use pfstrase.Programs.Server as Servers
use pfstrase.Programs.Sql.{
  Sql, pq_timer_cb, signal_cb_int, start_sql, started_sql, handle, start, next, step,
}
use pfstrase.Programs.Sql.Loop.{IsCopying, Reachable-IsCopying}
use pfstrase.Programs.Sql.Inserts.{shm_timer_cb-pq_timer_cb}
use pfstrase.Tests.Data.{listening, get_or}

-- A library that reads every text as a map of rates, which has a user as well.
abbrev rates : Value
rates = object (
    (
      "oss1",
      object (("time", number (pos 9)) ∷ ("bob's", object (("open", number (pos 3)) ∷ [])) ∷ []),
    )
    ∷ ("uid", text "bob")
    ∷ [])

abbrev C : JsonC
C = sample (λ _. some rates)

rates-StopsAtEnd : StopsAtEnd C rates
rates-StopsAtEnd rest = refl

abbrev print_f : C.Double → String
print_f d = "3.000000"

abbrev server : Server C print_f
server = record (started C print_f map_server listening (default_arguments map_server)) {
  maps = record { host_map = object []; nid_map = []; server_tag_rate_map = rates };
}

abbrev written : Server C print_f
written = record server { memory = "oss1=;uid=bob;" }

abbrev copier : Sql C print_f
copier = started_sql C print_f (default_arguments sql_client)

abbrev copied : Sql C print_f
copied =
    get_or copier
      (handle C print_f (λ line. none) (λ name. none) (pq_timer_cb written.memory) copier)

shm_timer_cb-pq_timer_cb_example :
    (group_ratesbytags C
        ("system" ∷ "fid" ∷ "server" ∷ "jid" ∷ "uid" ∷ [])
        no_filters
        (record copier.view { server_tag_rate_map = rates })
      ≡ some copied.view)
    × ((records : List String) × (groups : List (List String)) × (view_records C print_f
            (C.entries copied.view.screen_map)
          ≡ some records)
        × (all_records groups ≡ records)
        × (copied.executed ≡ copier.executed ++ map statement groups)
        × All Fits groups)
unfolding Servers.handle handle set_shm_map make_buffer tag_stats tag_hosts group_statsbytags
    group_hosts copy_map set_group_tags tag_names select_tags copy_tag foreach_add get_shm_map
    lookup insert snprintf_format format strstr wrap32 wrap64 ◌+ℤ◌ ◌-ℤ◌ passes merge_row group_row
    group_rows write_shared group_server view_server view_servers group_ratesbytags kind add_stats
    sum_event sum_events derive_entry derive_tag derive_tags add_share effective_load
    effective_loads derived_events end_statement exec_query add_record record_text tag_pieces
    event_pieces row_record insert_row insert_rows insert_server insert_servers pq_insert printed
    print_piece print_pieces
shm_timer_cb-pq_timer_cb_example =
    shm_timer_cb-pq_timer_cb C print_f (λ line. none) (λ name. none) map_server server written
      copier copied rates-StopsAtEnd refl refl

abbrev inserted : View C × List String
inserted = get_or (copier.view, []) (pq_insert C print_f no_filters copier.view "")

pq_insert-records_example :
    (group_ratesbytags C
        ("system" ∷ "fid" ∷ "server" ∷ "jid" ∷ "uid" ∷ [])
        no_filters
        (record copier.view { server_tag_rate_map = rates })
      ≡ some inserted.0)
    × ((records : List String) × (groups : List (List String)) × (view_records C print_f
            (C.entries inserted.0.screen_map)
          ≡ some records)
        × (all_records groups ≡ records)
        × (inserted.1 ≡ map statement groups)
        × All Fits groups)
unfolding set_group_tags tag_names select_tags copy_tag foreach_add get_shm_map lookup insert
    snprintf_format format strstr wrap32 wrap64 ◌+ℤ◌ ◌-ℤ◌ passes merge_row group_row group_rows
    write_shared group_server view_server view_servers group_ratesbytags kind add_stats sum_event
    sum_events derive_entry derive_tag derive_tags add_share effective_load effective_loads
    derived_events end_statement exec_query add_record record_text tag_pieces event_pieces
    row_record insert_row insert_rows insert_server insert_servers pq_insert printed print_piece
    print_pieces
pq_insert-records_example =
    pq_insert-records C print_f no_filters copier.view inserted.0 "" inserted.1 refl

-- pfsql with its database set, and once it has been told to stop.
abbrev sql_arguments : Arguments
sql_arguments = record (default_arguments sql_client) {
  settings = record (default_settings sql_client) {
    dbserver = some "db1";
    dbname = some "pfs";
    dbuser = some "pfs";
  };
}

abbrev sql : Sql C print_f
sql = started_sql C print_f sql_arguments

Reachable-IsCopying_example :
    IsCopying C print_f
      (record (get_or sql (handle C print_f (λ line. none) (λ name. none) (pq_timer_cb "") sql)) {
        running = false;
      })
unfolding start_sql handle pq_connect Servers.connect_database set_group_tags tag_names select_tags
    copy_tag foreach_add get_shm_map lookup insert snprintf_format format strstr wrap32 wrap64 ◌+ℤ◌
    ◌-ℤ◌ passes merge_row group_row group_rows write_shared group_server view_server view_servers
    group_ratesbytags kind add_stats sum_event sum_events derive_entry derive_tag derive_tags
    add_share effective_load effective_loads derived_events end_statement exec_query add_record
    record_text tag_pieces event_pieces row_record insert_row insert_rows insert_server
    insert_servers pq_insert printed print_piece print_pieces
Reachable-IsCopying_example =
    Reachable-IsCopying C print_f (λ line. none) (λ name. none) (λ info. true) sql_arguments sql _
      refl (next (next start (step (pq_timer_cb "") refl refl)) (step signal_cb_int refl refl))
