-- ===== src/Tests/Screens.antt =====
-- The viewer's refreshes, and the array that it prints into.
use pfstrase.Prelude.{
  ◌+◌, ◌*◌, ◌<◌, String, ◌≡◌, ◌↔◌, refl, true, false, none, some, [], ◌∷◌, arith, pos, length, All,
}
use pfstrase.Json.Sample.{Value, text, number, object}
use pfstrase.Buffer.{empty_buffer, print_piece, print_pieces, printed}
use pfstrase.Buffer.Fits.{length_before_last, print_pieces-none_iff}
use pfstrase.Screen.Draw.{
  row_text, row_pieces, header_text, header_pieces, left_column, right_column, draw_lines,
}
use pfstrase.Screen.Draw.Widths.{row_text-none_iff}
use Prim.Native.Nat.{min}
use pfstrase.Prelude.{lookup, insert}
use pfstrase.Prelude.Int.{pos_part, wrap32, ◌+ℤ◌, ◌-ℤ◌}
use pfstrase.Json.Objects.{copy_tag}
use pfstrase.Shm.{get_shm_map}
use pfstrase.Stats.Group.{set_group_tags, tag_names}
use pfstrase.Stats.View.{View, Filters, group_ratesbytags, view_servers}
use pfstrase.Screen.Keys.{
  char, screen_key_cb, press, press_char, tolower, is_quit, screen_refresh, grouped_by,
}
use pfstrase.Screen.Scroll.{clamp_start, drawn, draw_rows}
use pfstrase.Screen.Scroll.Bounds.{page}
use pfstrase.Screen.Table.{da_refresh, add_servers, add_rows, copy_events, default_events}
use pfstrase.Screen.Refresh.{
  Viewer, Frame, stdin_io, screen_start, stdin_io_cb, handle, start, next, step, refresh_timer_cb,
  screen_refresh_cb, draw, end_refresh, da_len,
}
use pfstrase.Screen.Refresh.Settled.{IsSettled, Reachable-IsSettled}
use pfstrase.Screen.Refresh.Held.{stdin_io_cb-refresh_timer_cb, window_behind}
use pfstrase.Screen.Refresh.Shown.{Shows, At, refresh_timer_cb-rows}
use pfstrase.Tests.Data.{get_or}
use pfstrase.Tests.Viewer.{S}

print_pieces-none_iff_example :
    (print_pieces 4 ("abcdef" ∷ "g" ∷ []) empty_buffer ≡ none)
    ↔ (4 < 0 + length_before_last ("abcdef" ∷ "g" ∷ []))
print_pieces-none_iff_example = print_pieces-none_iff 4 "abcdef" ("g" ∷ []) empty_buffer

-- How doubles are shown, whatever they are.
abbrev shown : S.Double → String
shown d = "          3.00"

abbrev iops : Value
iops = object (("iops", number (pos 3)) ∷ [])

row_text-none_iff_example :
    (row_text S shown (object (("server", text "") ∷ [])) iops iops ≡ none)
    ↔ (512 < 17 * 1 + 15 * 0)
unfolding lookup
row_text-none_iff_example =
    row_text-none_iff S shown (object (("server", text "") ∷ [])) iops iops ("iops", number (pos 3))
      [] refl (refl, tt)

-- One server with one row, and a window of 24 lines.
abbrev view : View S
view = record {
  server_tag_rate_map = object [];
  screen_map = object (("oss1", object (("time", number (pos 9)) ∷ ("bob's", iops) ∷ [])) ∷ []);
}

abbrev no_filters : Filters
no_filters = record { user = none; job = none; server = none }

abbrev first : Viewer S shown
first = screen_start S shown 24 view

Reachable-IsSettled_example : IsSettled (stdin_io_cb S shown 5 (some (char b'd')) first).screen
unfolding handle screen_start
Reachable-IsSettled_example =
    Reachable-IsSettled S shown no_filters (stdin_io_cb S shown 5 (some (char b'd')) first)
      (next (start 24 view) (step (stdin_io 5 (some (char b'd'))) refl refl))

abbrev pressed : Viewer S shown
pressed = stdin_io_cb S shown 5 (some (char b's')) first

-- What a refresh leaves and draws.
abbrev refreshed : Viewer S shown → Viewer S shown × Frame S shown
refreshed v =
    get_or (v, record { header_tags = ""; rows = [] })
      (refresh_timer_cb S shown no_filters 7 "old" v)

stdin_io_cb-refresh_timer_cb_example :
    (refresh_timer_cb S shown no_filters 7 "new" pressed ≡ some (refreshed pressed))
    × ((refreshed pressed).0.table ≡ first.table)
    × (header_text S shown (set_group_tags S ("system" ∷ "server" ∷ [])) first.table.screvents
        ≡ some (refreshed pressed).1.header_tags)
    × (draw_lines S shown
          (set_group_tags S ("system" ∷ "server" ∷ []))
          first.table
          (window_behind S shown 5 (char b's') first).0
        ≡ some (refreshed pressed).1.rows)
    × ((refreshed pressed).0.screen.da_refresh_flag ≡ true)
    × ((refreshed pressed).0.screen.refresh_pending ≡ false)
unfolding refresh_timer_cb screen_refresh_cb draw draw_lines header_text header_pieces left_column
    right_column print_pieces print_piece printed clamp_start drawn draw_rows end_refresh
    set_group_tags tag_names group_ratesbytags view_servers screen_start stdin_io_cb screen_key_cb
    press press_char tolower is_quit screen_refresh grouped_by get_shm_map wrap32 ◌+ℤ◌ ◌-ℤ◌ lookup
    insert
stdin_io_cb-refresh_timer_cb_example =
    stdin_io_cb-refresh_timer_cb S shown no_filters (char b's') 5 7 "old" "new" first
      (refreshed pressed).0 (refreshed pressed).1 refl refl

refresh_timer_cb-rows_example :
    (length (refreshed first).1.rows ≡ min (da_len S shown (refreshed first).0.table) (page 24))
    × All
        (Shows S shown
          (refreshed first).0.group_tags
          (refreshed first).0.table
          (At S shown (pos_part (refreshed first).0.screen.scroll_start) 24))
        (refreshed first).1.rows
unfolding refresh_timer_cb screen_refresh_cb draw draw_lines header_text header_pieces left_column
    right_column row_text row_pieces print_pieces print_piece printed clamp_start drawn draw_rows
    end_refresh set_group_tags tag_names group_ratesbytags view_servers screen_start grouped_by
    get_shm_map da_refresh add_servers add_rows copy_events copy_tag default_events wrap32 ◌+ℤ◌ ◌-ℤ◌
    lookup insert
refresh_timer_cb-rows_example =
    refresh_timer_cb-rows S shown no_filters 7 "old" first (refreshed first).0 (refreshed first).1
      (omega arith) (omega arith) (omega arith) refl
