-- ===== src/Screen/Scroll/Bounds.antt =====
-- The rows that are drawn lie in the table, and the window stays on it.
use pfstrase.Prelude.{
  ℕ, zero, suc, ◌+◌, ◌-◌, ◌≤◌, ◌<◌, ◌^◌, ◌≡◌, ℤ, pos, negsuc, arith, All, length,
}
use pfstrase.Prelude.Int.{◌+ℤ◌, ◌-ℤ◌, wrap32, pos_part, wrap32-fits}
use Prim.Native.Nat.{min}
use pfstrase.Screen.Scroll.{min_int, max_int, clamp_start, draw_rows, drawn}

-- The number of rows below the header and above the status bar.
abbrev pub page : ℕ → ℕ
page lines = lines - 2

draw_rows-in_range :
    (fuel lines da_len j line : ℕ)
    → All (λ r. (r.0 < da_len) × (r.1 + 1 < lines)) (draw_rows fuel lines da_len j line).0
unfolding draw_rows
draw_rows-in_range zero lines da_len j line = tt
draw_rows-in_range (suc fuel) lines da_len j line =
    ground (arith, draw_rows-in_range fuel lines da_len (j + 1) (line + 1))

-- With enough fuel the loop ends by its test.
draw_rows-length :
    (fuel lines da_len j line : ℕ)
    → da_len ≤ j + fuel
    → (length (draw_rows fuel lines da_len j line).0 ≡ min (da_len - j) (lines - 1 - line))
      × ((draw_rows fuel lines da_len j line).1 ≡ j + min (da_len - j) (lines - 1 - line))
unfolding draw_rows
draw_rows-length zero lines da_len j line h = omega arith
draw_rows-length (suc fuel) lines da_len j line h =
    ground (arith, draw_rows-length fuel lines da_len (j + 1) (line + 1))

max_start-fits :
    (lines da_len : ℕ)
    → 2 ≤ lines
    → lines < 2 ^ 31
    → da_len < 2 ^ 31
    → wrap32 (pos da_len -ℤ (pos lines -ℤ pos 2)) ≡ pos da_len -ℤ pos (page lines)
unfolding ◌-ℤ◌
max_start-fits lines da_len two few fits =
    let below : pos lines -ℤ pos 2 ≡ pos (page lines) = ground arith in
    rw below (wrap32-fits (pos da_len -ℤ pos (page lines)) (ground arith) (ground arith))

clamp_within :
    (a : ℤ) (d k : ℕ)
    → let start = max_int (min_int a (pos d -ℤ pos k)) (pos 0) in
      (start ≡ pos (pos_part start)) × (pos_part start ≤ d - k)
unfolding ◌-ℤ◌
clamp_within (pos n) d k = ground arith
clamp_within (negsuc n) d k = ground arith

-- Whatever the keys asked for, the window starts on the table, and not past its last page; the
-- table and the screen have fewer than 2 ^ 31 rows, and the screen at least 2.
pub clamp_start_bounds :
    (lines da_len : ℕ) (scroll_start scroll_delta : ℤ)
    → 2 ≤ lines
    → lines < 2 ^ 31
    → da_len < 2 ^ 31
    → (start : ℕ) × (clamp_start lines da_len scroll_start scroll_delta ≡ pos start)
      × (start ≤ da_len - page lines)
unfolding clamp_start
clamp_start_bounds lines da_len scroll_start scroll_delta two few fits =
    let wanted = wrap32 (scroll_start +ℤ scroll_delta) in
    let (same, bound) = clamp_within wanted da_len (page lines) in
    (_, rw (clamp_start, max_start-fits lines da_len two few fits) same, bound)

-- Whatever the keys asked for, a refresh draws a full page, or the whole table if it is
-- shorter, of rows that are in the table, on lines between the header and the status bar; the
-- table and the screen have fewer than 2 ^ 31 rows, and the screen at least 2.
pub drawn-page :
    (lines da_len : ℕ) (scroll_start scroll_delta : ℤ)
    → 2 ≤ lines
    → lines < 2 ^ 31
    → da_len < 2 ^ 31
    → (length (drawn lines da_len scroll_start scroll_delta).0 ≡ min da_len (page lines))
      × All
          (λ r. (r.0 < da_len) × (r.1 + 1 < lines))
          (drawn lines da_len scroll_start scroll_delta).0
unfolding drawn
drawn-page lines da_len scroll_start scroll_delta two few fits =
    let (start, same, bound) =
      clamp_start_bounds lines da_len scroll_start scroll_delta two few fits in
    let (count, last) = draw_rows-length da_len lines da_len start 1 (omega arith) in
    rw (drawn, same) (omega (arith, count), draw_rows-in_range da_len lines da_len start 1)
