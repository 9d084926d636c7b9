-- ===== src/Screen/Refresh/Shown.antt =====
-- Which rows of the table a refresh shows, and where.
use Prim.Native.Nat.{min}
use pfstrase.Prelude.{
  ℕ, zero, suc, ◌+◌, ◌≤◌, ◌<◌, ◌^◌, String, ◌≡◌, refl, sym, ap, ◌∙◌, some, List, [], ◌∷◌, All,
  length, get_elem?, >>=-eq-some, some_inj, ◌>>=◌, arith, ltb, ◌&&◌, All-map, All-and, Bool-cases,
  inl, inr,
}
use pfstrase.Prelude.Int.{pos_part}
use pfstrase.Json.{JsonC}
use pfstrase.Stats.View.{Filters}
use pfstrase.Screen.Scroll.{draw_rows, drawn}
use pfstrase.Screen.Scroll.Bounds.{page, drawn-page}
use pfstrase.Screen.Table.{Table}
use pfstrase.Screen.Draw.{row_text, draw_lines}
use pfstrase.Screen.Refresh.{Viewer, Frame, da_len, refresh_timer_cb, end_refresh}
use pfstrase.Screen.Refresh.Cases.{refresh_timer_cb_cases, table_of, window, first_row}

-- The row of an index stands as far below the first line as the index is behind the first one.
Below : ℕ → ℕ → ℕ × ℕ → Type 0
Below first top (j, line) = (j + top ≡ first + line) × (top ≤ line)

draw_rows-Below :
    (fuel lines n first top : ℕ) → All (Below first top) (draw_rows fuel lines n first top).0
unfolding draw_rows Below
draw_rows-Below zero lines n first top = tt
draw_rows-Below (suc fuel) lines n first top =
    let rest =
      All-map (Below (first + 1) (top + 1)) (Below first top)
        (draw_rows fuel lines n (first + 1) (top + 1)).0
        (λ r h. (omega (arith, h.0), omega (arith, h.1)))
        (draw_rows-Below fuel lines n (first + 1) (top + 1)) in
    elim (Bool-cases (ltb first n && ltb (top + 1) lines)) [
      | inl more ↦ rw more ((omega arith, omega arith), rest)
      | inr done ↦ rw done tt
    ]

module _ (J : JsonC) (print_14_2f : J.Double → String) where
  open J use {Json, items}

  -- A line that shows the row of an index which fulfils a predicate.
  abbrev pub Shows : Json → Table J → (ℕ × ℕ → Type 0) → ℕ × String → Type 0
  Shows group_tags table P (line, text) =
      (j : ℕ) × P (j, line)
      × ((de : Json) × (get_elem? (items table.scrdata_array) j ≡ some de)
          × (row_text J print_14_2f group_tags table.screvents de ≡ some text))

  draw_lines-Shows :
      (group_tags : Json) (table : Table J) (P : ℕ × ℕ → Type 0) (shown : List (ℕ × ℕ))
      (rows : List (ℕ × String))
      → All P shown
      → draw_lines J print_14_2f group_tags table shown ≡ some rows
      → (length rows ≡ length shown) × All (Shows group_tags table P) rows
  unfolding draw_lines
  draw_lines-Shows group_tags table P [] rows good done = rw (← some_inj done) (refl, tt)
  draw_lines-Shows group_tags table P ((j, line) ∷ shown) rows good done =
      let (de, at, more) =
        >>=-eq-some {B = List (ℕ × String)} (get_elem? (items table.scrdata_array) j)
          (λ de. row_text J print_14_2f group_tags table.screvents de >>= λ text.
            draw_lines J print_14_2f group_tags table shown >>= λ others.
            some ((line, text) ∷ others))
          done in
      let (text, made, more') =
        >>=-eq-some {B = List (ℕ × String)} (row_text J print_14_2f group_tags table.screvents de)
          (λ text. draw_lines J print_14_2f group_tags table shown >>= λ others.
            some ((line, text) ∷ others))
          more in
      let (others, rest, all) =
        >>=-eq-some {B = List (ℕ × String)} (draw_lines J print_14_2f group_tags table shown)
          (λ others. some ((line, text) ∷ others)) more' in
      let (count, show) = draw_lines-Shows group_tags table P shown others good.1 rest in
      rw (← some_inj all) (ap suc count, ((j, good.0, (de, at, made)), show))

  -- The line of the table's row `j`, where the window starts at `start`.
  abbrev pub At : ℕ → ℕ → ℕ × ℕ → Type 0
  At start lines (j, line) = (j + 1 ≡ start + line) × (1 ≤ line) × (line + 1 < lines)

  window-At :
      (table : Table J) (v : Viewer J print_14_2f)
      → All
          (λ r. (r.0 < da_len J print_14_2f table) × (r.1 + 1 < v.lines))
          (window J print_14_2f table v).0
      → All
          (At (pos_part (first_row J print_14_2f table v)) v.lines)
          (window J print_14_2f table v).0
  unfolding drawn Below
  window-At table v inside =
      let first = pos_part (first_row J print_14_2f table v) in
      let shown = (window J print_14_2f table v).0 in
      let n = da_len J print_14_2f table in
      let inner = λ (r : ℕ × ℕ). (r.0 < n) × (r.1 + 1 < v.lines) in
      All-map (λ r. inner r × Below first 1 r) (At first v.lines) shown
        (λ r h. (h.1.0, h.1.1, h.0.1))
        (All-and inner (Below first 1) shown inside (draw_rows-Below n v.lines n first 1))

  -- A refresh shows a full page of the table, or the whole table where it is shorter: below the header,
  -- from the first row of the window on, each row with its own text on its own line, and none on
  -- the status bar. The table and the screen have fewer than 2 ^ 31 rows, and the screen at least 2.
  pub refresh_timer_cb-rows :
      (f : Filters) (now : ℕ) (memory : String) (v v' : Viewer J print_14_2f)
      (frame : Frame J print_14_2f)
      → 2 ≤ v.lines
      → v.lines < 2 ^ 31
      → da_len J print_14_2f v'.table < 2 ^ 31
      → refresh_timer_cb J print_14_2f f now memory v ≡ some (v', frame)
      → (length frame.rows ≡ min (da_len J print_14_2f v'.table) (page v.lines))
        × All
            (Shows v'.group_tags v'.table (At (pos_part v'.screen.scroll_start) v.lines))
            frame.rows
  unfolding drawn end_refresh
  refresh_timer_cb-rows f now memory v v' frame two few fits done =
      let (view, grouped, r) = refresh_timer_cb_cases J print_14_2f f now memory v v' frame done in
      let table = table_of J print_14_2f view v in
      let n = da_len J print_14_2f table in
      let same = ap (da_len J print_14_2f) r.table in
      let shown = (window J print_14_2f table v).0 in
      let (count, inside) =
        drawn-page v.lines n v.screen.scroll_start v.screen.scroll_delta two few
          (omega (arith, same, fits)) in
      let placed = window-At table v inside in
      let (all, show) =
        draw_lines-Shows v'.group_tags v'.table
          (At (pos_part (first_row J print_14_2f table v)) v.lines) shown frame.rows placed
          (rw (r.table, r.groups) r.rows) in
      (all ∙ count ∙ ap (λ k. min k (page v.lines)) (sym same), rw r.screen show)
