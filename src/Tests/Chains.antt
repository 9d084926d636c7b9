-- ===== src/Tests/Chains.antt =====
-- From the server to a viewer.
use Prim.Native.String.{◌++◌ as append}
use package.text.Mathlib.TextPositions.{len-append}
use pfstrase.Prelude.{
  String, Bool, ◌≡◌, refl, sym, ap, ◌∙◌, true, false, Option, none, some, [], ◌∷◌, lookup, insert,
  arith, pos, snprintf_format, format, strstr, length, All, len, Bool-cases, inl, inr, ◌==◌, ◌<◌,
  eq_iff, ◌+◌,
}
use pfstrase.Prelude.Int.{wrap32, wrap64, ◌+ℤ◌, ◌-ℤ◌, pos_part}
use Prim.Native.Nat.{min}
use pfstrase.Json.{JsonC}
use pfstrase.Json.Sample.{Value, sample, text, number, object}
use pfstrase.Json.Objects.{copy_tag, foreach_add}
use pfstrase.Buffer.{print_pieces, print_piece, printed}
use pfstrase.Tests.Data.{listening, get_or}
use pfstrase.Stats.Tag.{tag_stats, tag_hosts}
use pfstrase.Stats.Totals.{
  kind, add_stats, sum_event, sum_events, derive_entry, derive_tag, derive_tags, add_share,
  effective_load, effective_loads, derived_events,
}
use pfstrase.Stats.Group.{set_group_tags, tag_names, select_tags, group_statsbytags, group_hosts}
use pfstrase.Stats.View.{
  passes, merge_row, group_row, group_rows, write_shared, group_server, view_server, view_servers,
  group_ratesbytags, View,
}
use pfstrase.Shm.{get_shm_map, set_shm_map, make_buffer, copy_map}
use pfstrase.Shm.Exchange.{StopsAtEnd}
use pfstrase.Screen.Keys.{grouped_by}
use pfstrase.Screen.Scroll.{clamp_start, drawn, draw_rows}
use pfstrase.Screen.Scroll.Bounds.{page}
use pfstrase.Screen.Table.{da_refresh, add_servers, add_rows, default_events, copy_events}
use pfstrase.Screen.Draw.{
  header_text, header_pieces, left_column, right_column, draw_lines, row_text, row_pieces,
}
use pfstrase.Screen.Refresh.{
  Viewer, Frame, start, screen_start, refresh_timer_cb, screen_refresh_cb, draw, end_refresh,
  da_len,
}
use pfstrase.Screen.Refresh.Shown.{Shows, At}
use pfstrase.Conf.{map_server}
use pfstrase.Programs.{default_arguments}
use pfstrase.Programs.Server.{Server, started, handle, no_filters}
use pfstrase.Programs.Server.Viewers.{shm_timer_cb-refresh_timer_cb}

-- A map of the rates of one host, which has a group.
abbrev rates : Value
rates = object (
    (
      "oss1.cluster",
      object (("time", number (pos 9)) ∷ ("bob's", object (("open", number (pos 3)) ∷ [])) ∷ []),
    )
    ∷ [])

abbrev user : Value
user = object (("uid", text "bob") ∷ [])

-- A library that reads the texts of two groups as their tags, and any other as the map.
abbrev parsed : Bool → Bool → Option Value
parsed true b = some user
parsed false true = some user
parsed false false = some rates

abbrev D : JsonC
D = sample (λ s. parsed (s == "bob's") (s == "uid=bob;"))

-- No text with the printed map in front is that of a group.
longer : (s : String) → (rest : String) → len s < 13 → (append "oss1.cluster=;" rest == s) ≡ false
longer s rest short = elim (Bool-cases (append "oss1.cluster=;" rest == s)) [
  | inl same ↦
      let whole : append "oss1.cluster=;" rest ≡ s =
        (eq_iff (append "oss1.cluster=;" rest) s).0 same in
      let lengths : len "oss1.cluster=;" + len rest ≡ len s =
        sym (len-append "oss1.cluster=;" rest) ∙ ap len whole in
      absurd (omega (arith, lengths, short))
  | inr other ↦ other
]

rates-StopsAtEnd : StopsAtEnd D rates
rates-StopsAtEnd rest =
    rw (longer "bob's" rest (omega arith), longer "uid=bob;" rest (omega arith)) refl

abbrev print_f : D.Double → String
print_f d = "3.000000"

abbrev view : View D
view = record { server_tag_rate_map = object []; screen_map = object [] }

abbrev server : Server D print_f
server = record (started D print_f map_server listening (default_arguments map_server)) {
  maps = record { host_map = object []; nid_map = []; server_tag_rate_map = rates };
}

abbrev written : Server D print_f
written = record server { memory = "oss1.cluster=;" }

abbrev viewer : Viewer D print_f
viewer = screen_start D print_f 24 view

abbrev refreshed : Viewer D print_f × Frame D print_f
refreshed =
    get_or (viewer, record { header_tags = ""; rows = [] })
      (refresh_timer_cb D print_f no_filters 7 written.memory viewer)

shm_timer_cb-refresh_timer_cb_example :
    (group_ratesbytags D
        (grouped_by 0)
        no_filters
        (record { server_tag_rate_map = rates; screen_map = object [] })
      ≡ some refreshed.0.view)
    × (refreshed.0.table ≡ da_refresh D false "load_eff" refreshed.0.view.screen_map)
    × (length refreshed.1.rows ≡ min (da_len D print_f refreshed.0.table) (page 24))
    × All
        (Shows D print_f refreshed.0.group_tags refreshed.0.table
          (At D print_f (pos_part refreshed.0.screen.scroll_start) 24))
        refreshed.1.rows
unfolding refresh_timer_cb screen_refresh_cb draw draw_lines header_text header_pieces left_column
    right_column row_text row_pieces print_pieces print_piece printed clamp_start drawn draw_rows
    end_refresh set_group_tags tag_names select_tags copy_tag foreach_add snprintf_format format
    strstr passes merge_row group_row group_rows write_shared group_server view_server view_servers
    group_ratesbytags kind add_stats sum_event sum_events derive_entry derive_tag derive_tags
    add_share effective_load effective_loads derived_events screen_start grouped_by get_shm_map
    da_refresh add_servers add_rows default_events copy_events wrap32 wrap64 ◌+ℤ◌ ◌-ℤ◌ lookup insert
    handle set_shm_map make_buffer tag_stats tag_hosts group_statsbytags group_hosts copy_map
shm_timer_cb-refresh_timer_cb_example =
    shm_timer_cb-refresh_timer_cb D print_f print_f (λ line. none) (λ name. none) map_server server
      written no_filters 7 viewer refreshed.0 refreshed.1 rates-StopsAtEnd refl (start 24 view) refl
      (omega arith) (omega arith) (omega arith) refl

row_count : length refreshed.1.rows ≡ 1
unfolding refresh_timer_cb screen_refresh_cb draw draw_lines header_text header_pieces left_column
    right_column row_text row_pieces print_pieces print_piece printed clamp_start drawn draw_rows
    end_refresh set_group_tags tag_names select_tags copy_tag foreach_add snprintf_format format
    strstr passes merge_row group_row group_rows write_shared group_server view_server view_servers
    group_ratesbytags kind add_stats sum_event sum_events derive_entry derive_tag derive_tags
    add_share effective_load effective_loads derived_events screen_start grouped_by get_shm_map
    da_refresh add_servers add_rows default_events copy_events wrap32 wrap64 ◌+ℤ◌ ◌-ℤ◌ lookup insert
row_count = refl
