-- ===== src/Screen/Keys/Effects.antt =====
-- What a key does to the viewer.
use pfstrase.Prelude.{
  ℕ, ◌≤◌, true, false, ◌≡◌, refl, ◌⊎◌, arith, Bool-cases, inl, inr, if◌then◌else◌,
}
use pfstrase.Screen.Keys.{
  Key, char, Screen, press, press_char, is_quit, screen_key_cb, screen_refresh, tolower,
}

-- The viewer groups by one of its six choices or the default, and sorts by one of three events.
pub record IsValid (s : Screen) : Type 0 where
  pub choice : s.groupby ≤ 6
  pub sorted : (s.sortbykey ≡ "load_eff") ⊎ ((s.sortbykey ≡ "iops") ⊎ (s.sortbykey ≡ "bytes"))

press_char-IsValid : (now key c : ℕ) (s : Screen) → IsValid s → IsValid (press_char now key c s)
unfolding press_char screen_refresh
press_char-IsValid now key c s h = ground arith

press-IsValid :
    (lines now : ℕ) (key : Key) (s : Screen) → IsValid s → IsValid (press lines now key s)
unfolding press
press-IsValid lines now (char c) s h = press_char-IsValid now c (tolower c) s h
press-IsValid lines now _ s h = record { choice = h.choice; sorted = h.sorted }

-- Every key keeps the choice of groups and of the sorting event within those of the viewer.
pub screen_key_cb-IsValid :
    (lines now : ℕ) (key : Key) (s : Screen) → IsValid s → IsValid (screen_key_cb lines now key s)
unfolding screen_key_cb screen_refresh
screen_key_cb-IsValid lines now key s h = ground (arith, press-IsValid lines now key s h)

-- What a key leaves alone: the position of the table, and whether the viewer runs.
pub record Kept (s t : Screen) : Type 0 where
  pub start : t.scroll_start ≡ s.scroll_start
  pub running : t.running ≡ s.running

press_char-Kept : (now key c : ℕ) (s : Screen) → Kept s (press_char now key c s)
unfolding press_char screen_refresh
press_char-Kept now key c s = ground arith

press-Kept : (lines now : ℕ) (key : Key) (s : Screen) → Kept s (press lines now key s)
unfolding press
press-Kept lines now (char c) s = press_char-Kept now c (tolower c) s
press-Kept lines now _ s = record { start = refl; running = refl }

pub screen_key_cb-quit :
    (lines now : ℕ) (key : Key) (s : Screen)
    → is_quit key ≡ true
    → screen_key_cb lines now key s ≡ record s { running = false }
unfolding screen_key_cb
screen_key_cb-quit lines now key s quit = rw (quit, screen_key_cb)

-- A key that does not quit.
pub screen_key_cb-other :
    (lines now : ℕ) (key : Key) (s : Screen)
    → is_quit key ≡ false
    → Kept s (screen_key_cb lines now key s)
      × ((screen_key_cb lines now key s).da_refresh_flag ≡ false)
      × ((screen_key_cb lines now key s).refresh_pending ≡ true)
unfolding screen_key_cb screen_refresh
screen_key_cb-other lines now key s other =
    rw (other, screen_key_cb) (ground (arith, press-Kept lines now key s))

-- Only `q` ends the viewer, and changes nothing else. Any other key holds back the next reading
-- of the data and leaves a refresh pending.
pub screen_key_cb_lem :
    (lines now : ℕ) (key : Key) (s : Screen)
    → if is_quit key
      then screen_key_cb lines now key s ≡ record s { running = false }
      else Kept s (screen_key_cb lines now key s)
        × ((screen_key_cb lines now key s).da_refresh_flag ≡ false)
        × ((screen_key_cb lines now key s).refresh_pending ≡ true)
screen_key_cb_lem lines now key s = elim (Bool-cases (is_quit key)) [
  | inl quit ↦ rw quit (screen_key_cb-quit lines now key s quit)
  | inr other ↦ rw other (screen_key_cb-other lines now key s other)
]
