-- ===== src/Screen/Keys.antt =====
-- server/screen.c, screen_key_cb and the choice of groups in refresh_timer_cb.
pub mod Effects
use pfstrase.Prelude.{
  ℕ, ◌+◌, String, Bool, true, false, ◌&&◌, List, [], ◌∷◌, ℤ, pos, negsuc, eqb, leb, ltb, not,
  if◌then◌else◌,
}
use pfstrase.Prelude.Int.{◌+ℤ◌, ◌-ℤ◌, wrap32}

-- A key code: a character, or one of the keys that ncurses names.
pub data Key : Type 0 where
  char : ℕ → Key
  key_down key_up key_home key_end key_npage key_ppage : Key

-- `char status_bar[256]`: the character of an unknown command, or the rows that are shown.
pub data StatusBar : Type 0 where
  blank : StatusBar
  unknown_command : ℕ → StatusBar
  range : ℤ → ℕ → ℕ → StatusBar

-- The variables of the viewer that a key can change. `refresh_pending` is the event that
-- screen_refresh feeds, and `running` ends with ev_break.
pub record Screen : Type 0 where
  pub groupby : ℕ
  pub sortbykey : String
  pub detailed : Bool
  pub scroll_start : ℤ
  pub scroll_delta : ℤ
  pub da_refresh_flag : Bool
  pub status_bar_time : ℕ
  pub status_bar : StatusBar
  pub refresh_pending : Bool
  pub running : Bool

unfoldable pub screen_refresh : Screen → Screen
screen_refresh s = if s.refresh_pending then s else record s { refresh_pending = true }

unfoldable pub tolower : ℕ → ℕ
tolower c = if leb b'A' c && leb c b'Z' then c + 32 else c

abbrev int_max_half : ℤ
int_max_half = pos 1073741823

abbrev int_min_half : ℤ
int_min_half = negsuc 1073741823

-- The default case: `isascii(key)`.
abbrev unknown : ℕ → ℕ → Screen → Screen
unknown now c s =
    if ltb c 128 then record s { status_bar_time = now; status_bar = unknown_command c } else s

-- The cases of the switch that go on behind it, on the key in lower case.
unfoldable pub press_char : ℕ → ℕ → ℕ → Screen → Screen
press_char now key c s =
    if eqb c b' '
    then s
    else if eqb c b'\n'
    then screen_refresh s
    else if eqb c b'f'
    then record s { groupby = 1 }
    else if eqb c b'u'
    then record s { groupby = 2 }
    else if eqb c b'j'
    then record s { groupby = 3 }
    else if eqb c b'c'
    then record s { groupby = 4 }
    else if eqb c b's'
    then record s { groupby = 5 }
    else if eqb c b'n'
    then record s { groupby = 6 }
    else if eqb c b'l'
    then record s { sortbykey = "load_eff" }
    else if eqb c b'i'
    then record s { sortbykey = "iops" }
    else if eqb c b'b'
    then record s { sortbykey = "bytes" }
    else if eqb c b'd'
    then record s { detailed = not s.detailed }
    else unknown now key s

-- `lines` is LINES, and `now` what ev_now returns, in microseconds.
unfoldable pub press : ℕ → ℕ → Key → Screen → Screen
press lines now (char c) s = press_char now c (tolower c) s
press lines now key_down s = record s { scroll_delta = wrap32 (s.scroll_delta +ℤ pos 1) }
press lines now key_home s = record s { scroll_delta = int_min_half }
press lines now key_end s = record s { scroll_delta = int_max_half }
press lines now key_up s = record s { scroll_delta = wrap32 (s.scroll_delta -ℤ pos 1) }
press lines now key_npage s = record s { scroll_delta = wrap32 (s.scroll_delta +ℤ pos lines) }
press lines now key_ppage s = record s { scroll_delta = wrap32 (s.scroll_delta -ℤ pos lines) }

unfoldable pub is_quit : Key → Bool
is_quit (char c) = eqb (tolower c) b'q'
is_quit _ = false

unfoldable pub screen_key_cb : ℕ → ℕ → Key → Screen → Screen
screen_key_cb lines now key s =
    if is_quit key
    then record s { running = false }
    else screen_refresh (record (press lines now key s) { da_refresh_flag = false })

-- The tags that each choice groups by.
unfoldable pub grouped_by : ℕ → List String
grouped_by groupby =
    if eqb groupby 4
    then "system" ∷ "fid" ∷ "server" ∷ "client" ∷ "jid" ∷ "uid" ∷ []
    else if eqb groupby 3
    then "system" ∷ "fid" ∷ "server" ∷ "jid" ∷ "uid" ∷ []
    else if eqb groupby 2
    then "system" ∷ "fid" ∷ "server" ∷ "uid" ∷ []
    else if eqb groupby 1
    then "system" ∷ "fid" ∷ "server" ∷ []
    else if eqb groupby 5
    then "system" ∷ "server" ∷ []
    else if eqb groupby 6
    then "server" ∷ []
    else "system" ∷ "fid" ∷ "server" ∷ "jid" ∷ "uid" ∷ []
