-- ===== src/Screen/Scroll.antt =====
-- server/screen.c, screen_refresh_cb: which rows of the table are drawn.
pub mod Bounds
use pfstrase.Prelude.{
  ℕ, zero, suc, ◌+◌, ◌-◌, Bool, true, false, ◌&&◌, List, [], ◌∷◌, ℤ, pos, negsuc, ltb,
  if◌then◌else◌,
}
use pfstrase.Prelude.Int.{◌+ℤ◌, ◌-ℤ◌, ltb_ℤ, wrap32, pos_part}

-- The macros MIN and MAX.
abbrev pub min_int : ℤ → ℤ → ℤ
min_int x y = if ltb_ℤ x y then x else y

abbrev pub max_int : ℤ → ℤ → ℤ
max_int x y = if ltb_ℤ y x then x else y

-- `new_start`, below one line of header; ints wrap around.
unfoldable pub clamp_start : ℕ → ℕ → ℤ → ℤ → ℤ
clamp_start lines da_len scroll_start scroll_delta =
    let new_start = wrap32 (scroll_start +ℤ scroll_delta) in
    let max_start = wrap32 (pos da_len -ℤ (pos lines -ℤ pos 2)) in
    max_int (min_int new_start max_start) (pos 0)

-- `for (j = new_start; j < da_len && line < (LINES - 1); j++)`: the indices of the rows
-- that are drawn, each with its line, and the last value of `j`. Fuel bounds the rounds.
unfoldable pub draw_rows : ℕ → ℕ → ℕ → ℕ → ℕ → List (ℕ × ℕ) × ℕ
draw_rows zero lines da_len j line = ([], j)
draw_rows (suc fuel) lines da_len j line =
    let (rows, last) = draw_rows fuel lines da_len (j + 1) (line + 1) in
    if ltb j da_len && ltb (line + 1) lines then ((j, line) ∷ rows, last) else ([], j)

-- The rows of one refresh: each round takes one row of the table, so its length is enough fuel.
unfoldable pub drawn : ℕ → ℕ → ℤ → ℤ → List (ℕ × ℕ) × ℕ
drawn lines da_len scroll_start scroll_delta =
    draw_rows da_len lines da_len (pos_part (clamp_start lines da_len scroll_start scroll_delta)) 1
