-- ===== src/Screen/Refresh/Cases.antt =====
-- A refresh taken apart: what it draws, and what it leaves.
use pfstrase.Prelude.{
  ℕ, String, false, ◌≡◌, sym, ap, ◌∙◌, Option, some, >>=-eq-some, some_inj, ◌>>=◌, List, ℤ,
  if◌then◌else◌,
}
use pfstrase.Json.{JsonC}
use pfstrase.Stats.Group.{set_group_tags}
use pfstrase.Stats.View.{Filters, View, group_ratesbytags}
use pfstrase.Screen.Keys.{Screen, grouped_by}
use pfstrase.Screen.Scroll.{clamp_start, drawn}
use pfstrase.Screen.Table.{Table, da_refresh}
use pfstrase.Screen.Draw.{header_text, draw_lines}
use pfstrase.Screen.Refresh.{
  end_refresh, Viewer, Frame, draw, da_len, screen_refresh_cb, read_map, refresh_timer_cb,
}

module _ (J : JsonC) (print_14_2f : J.Double → String) where
  abbrev V : Type 0
  V = Viewer J print_14_2f

  abbrev F : Type 0
  F = Frame J print_14_2f

  -- The rows of the table that are drawn, the first of them, and the end of the loop.
  abbrev pub window : Table J → V → List (ℕ × ℕ) × ℕ
  window table v =
      drawn v.lines (da_len J print_14_2f table) v.screen.scroll_start v.screen.scroll_delta

  abbrev pub first_row : Table J → V → ℤ
  first_row table v =
      clamp_start v.lines (da_len J print_14_2f table) v.screen.scroll_start v.screen.scroll_delta

  -- The variables after a table was drawn.
  abbrev pub screen_after : ℕ → Table J → V → Screen
  screen_after now table v =
      end_refresh now (window table v).1 (da_len J print_14_2f table) (first_row table v) v.screen

  draw_cases :
      (now : ℕ) (v v' : V) (frame : F)
      → draw J print_14_2f now v ≡ some (v', frame)
      → (v' ≡ record v { screen = screen_after now v.table v })
        × (draw_lines J print_14_2f v.group_tags v.table (window v.table v).0 ≡ some frame.rows)
        × (header_text J print_14_2f v.group_tags v.table.screvents ≡ some frame.header_tags)
  unfolding draw
  draw_cases now v v' frame done =
      let after : V = record v { screen = screen_after now v.table v } in
      let (h, header, more) =
        >>=-eq-some {B = V × F} (header_text J print_14_2f v.group_tags v.table.screvents)
          (λ h. draw_lines J print_14_2f v.group_tags v.table (window v.table v).0 >>= λ rows.
            some (after, record { header_tags = h; rows = rows }))
          done in
      let (rows, body, both) =
        >>=-eq-some {B = V × F} (draw_lines J print_14_2f v.group_tags v.table (window v.table v).0)
          (λ rows. some (after, record { header_tags = h; rows = rows })) more in
      let same = some_inj both in
      (
        sym (ap (λ p. p.0) same),
        body ∙ ap (λ p. some p.1.rows) same,
        header ∙ ap (λ p. some p.1.header_tags) same,
      )

  -- The table that a refresh draws.
  abbrev pub table_of : View J → V → Table J
  table_of view v =
      if v.screen.da_refresh_flag
      then da_refresh J v.screen.detailed v.screen.sortbykey view.screen_map
      else v.table

  -- What is drawn once the groups are made, and what is left.
  pub record Refreshed (now : ℕ) (view : View J) (v v' : V) (frame : F) : Type 0 where
    pub table : v'.table ≡ table_of view v
    pub lines : v'.lines ≡ v.lines
    pub view_after : v'.view ≡ view
    pub groups : v'.group_tags ≡ set_group_tags J (grouped_by v.screen.groupby)
    pub screen :
        v'.screen ≡ record (screen_after now (table_of view v) v) { refresh_pending = false }
    pub rows :
        draw_lines J print_14_2f
          (set_group_tags J (grouped_by v.screen.groupby))
          (table_of view v)
          (window (table_of view v) v).0
        ≡ some frame.rows
    pub header :
        header_text J print_14_2f
          (set_group_tags J (grouped_by v.screen.groupby))
          (table_of view v).screvents
        ≡ some frame.header_tags

  pub refresh_timer_cb_cases :
      (f : Filters) (now : ℕ) (memory : String) (v v' : V) (frame : F)
      → refresh_timer_cb J print_14_2f f now memory v ≡ some (v', frame)
      → (view : View J) × (group_ratesbytags J
            (grouped_by v.screen.groupby)
            f
            (read_map J print_14_2f memory v)
          ≡ some view)
        × Refreshed now view v v' frame
  unfolding refresh_timer_cb screen_refresh_cb
  refresh_timer_cb_cases f now memory v v' frame done =
      let names = grouped_by v.screen.groupby in
      let groups = set_group_tags J names in
      let ended : V × F → Option (V × F) =
        λ p. some (record p.0 { screen = record p.0.screen { refresh_pending = false } }, p.1) in
      let (view, grouped, more) =
        >>=-eq-some {B = V × F} (group_ratesbytags J names f (read_map J print_14_2f memory v))
          (λ view.
            screen_refresh_cb J print_14_2f now (record v { view = view; group_tags = groups })
            >>= ended)
          done in
      let (drawn_pair, shown, end) =
        >>=-eq-some {B = V × F}
          (screen_refresh_cb J print_14_2f now (record v { view = view; group_tags = groups }))
          ended more in
      let same = some_inj end in
      let with_table : V = record v { view = view; group_tags = groups; table = table_of view v } in
      let (after, body, header) = draw_cases now with_table drawn_pair.0 drawn_pair.1 shown in
      let is_after : v' ≡ record with_table {
        screen = record (screen_after now (table_of view v) v) { refresh_pending = false };
      } =
        sym (ap (λ p. p.0) same)
        ∙ ap (λ (w : V). record w { screen = record w.screen { refresh_pending = false } }) after in
      (
        view,
        grouped,
        record {
          table = ap (λ w. w.table) is_after;
          lines = ap (λ w. w.lines) is_after;
          view_after = ap (λ w. w.view) is_after;
          groups = ap (λ w. w.group_tags) is_after;
          screen = ap (λ w. w.screen) is_after;
          rows = body ∙ ap (λ p. some p.1.rows) same;
          header = header ∙ ap (λ p. some p.1.header_tags) same;
        },
      )
