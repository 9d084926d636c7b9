-- ===== src/Screen/Refresh/Held.antt =====
-- What the refresh behind a key does.
use pfstrase.Prelude.{ℕ, String, List, true, false, ◌≡◌, refl, sym, ap, ◌∙◌, some}
use pfstrase.Json.{JsonC}
use pfstrase.Stats.View.{Filters}
use pfstrase.Stats.Group.{set_group_tags}
use pfstrase.Screen.Keys.{Key, is_quit, screen_key_cb, grouped_by}
use pfstrase.Screen.Keys.Effects.{screen_key_cb-other}
use pfstrase.Screen.Draw.{header_text, draw_lines}
use pfstrase.Screen.Scroll.{drawn}
use pfstrase.Screen.Refresh.{Viewer, Frame, refresh_timer_cb, stdin_io_cb, end_refresh, da_len}
use pfstrase.Screen.Refresh.Cases.{refresh_timer_cb_cases, table_of, window}

module _ (J : JsonC) (print_14_2f : J.Double → String) where
  abbrev V : Type 0
  V = Viewer J print_14_2f

  refresh_timer_cb-held :
      (f : Filters) (now : ℕ) (memory other : String) (v : V)
      → v.screen.da_refresh_flag ≡ false
      → refresh_timer_cb J print_14_2f f now memory v ≡ refresh_timer_cb J print_14_2f f now other v
  unfolding refresh_timer_cb
  refresh_timer_cb-held f now memory other v held = simp held

  -- The rows of the table as it was that are in the window that a key leaves.
  abbrev pub window_behind : ℕ → Key → V → List (ℕ × ℕ) × ℕ
  window_behind now key v =
      let s = screen_key_cb v.lines now key v.screen in
      drawn v.lines (da_len J print_14_2f v.table) s.scroll_start s.scroll_delta

  -- Behind a key that does not quit, the refresh does not depend on the shared memory and leaves the
  -- table as it was. What it draws follows the key: the header and the texts of the rows show
  -- the tags of the choice of groups that the key leaves, and the rows are those of the window that
  -- the key leaves, of the table as it was. Afterwards the data is read again, and no refresh is
  -- pending.
  pub stdin_io_cb-refresh_timer_cb :
      (f : Filters) (key : Key) (now later : ℕ) (memory changed : String) (v v' : V)
      (frame : Frame J print_14_2f)
      → is_quit key ≡ false
      → refresh_timer_cb J print_14_2f f later memory (stdin_io_cb J print_14_2f now (some key) v)
        ≡ some (v', frame)
      → (refresh_timer_cb J print_14_2f f later changed (stdin_io_cb J print_14_2f now (some key) v)
          ≡ some (v', frame))
        × (v'.table ≡ v.table)
        × (header_text J print_14_2f
              (set_group_tags J (grouped_by (screen_key_cb v.lines now key v.screen).groupby))
              v.table.screvents
            ≡ some frame.header_tags)
        × (draw_lines J print_14_2f
              (set_group_tags J (grouped_by (screen_key_cb v.lines now key v.screen).groupby))
              v.table
              (window_behind now key v).0
            ≡ some frame.rows)
        × (v'.screen.da_refresh_flag ≡ true)
        × (v'.screen.refresh_pending ≡ false)
  unfolding stdin_io_cb end_refresh
  stdin_io_cb-refresh_timer_cb f key now later memory changed v v' frame other done =
      let w = stdin_io_cb J print_14_2f now (some key) v in
      let (kept, held, pending) = screen_key_cb-other v.lines now key v.screen other in
      let (view, grouped, r) =
        refresh_timer_cb_cases J print_14_2f f later memory w v' frame done in
      let same_table : table_of J print_14_2f view w ≡ v.table = rw held refl in
      (
        refresh_timer_cb-held f later changed memory w held ∙ done,
        r.table ∙ same_table,
        ap
              (λ t.
                header_text J print_14_2f (set_group_tags J (grouped_by w.screen.groupby))
                  t.screvents)
              (sym same_table)
            ∙ r.header,
        ap
              (λ t.
                draw_lines J print_14_2f (set_group_tags J (grouped_by w.screen.groupby)) t
                  (window J print_14_2f t w).0)
              (sym same_table)
            ∙ r.rows,
        ap (λ s. s.da_refresh_flag) r.screen,
        ap (λ s. s.refresh_pending) r.screen,
      )
