-- ===== src/Conf/Terminated.antt =====
-- Files whose lines end in a newline are read without a write before a line.
use Prim.Native.Char.{Char, code}
use Prim.Native.String.len
use text.Mathlib.TextPositions.{len_utf8-pos}
use pfstrase.Prelude.{
  String, Bool, true, false, ◌≡◌, refl, Option, none, some, List, [], ◌∷◌, All, len, leb, le→leb,
  eqb, arith, Bool-cases, inl, inr,
}
use pfstrase.Conf.{
  strsep, is_delimiter, chop, Settings, Program, Setting, setting_of, apply_setting, apply_line,
  read_line, read_lines, cons_key,
}

-- The text behind a line's key: not there, or not empty.
abbrev Filled : Option String → Type 0
Filled none = Unit
Filled (some rest) = leb 1 (len rest) ≡ true

-- A line of getline ends in a newline.
unfoldable pub ends_line : String → Bool
ends_line String.[] = false
ends_line (String.◌∷◌ c String.[]) = eqb (code c) b'\n'
ends_line (String.◌∷◌ c (String.◌∷◌ d s)) = ends_line (String.◌∷◌ d s)

newline-is_delimiter : (c : Char) → eqb (code c) b'\n' ≡ true → is_delimiter c ≡ false
unfolding is_delimiter
newline-is_delimiter c h = ground arith

rest-cons_key : (c : Char) (p : String × Option String) → Filled p.1 → Filled (cons_key c p).1
rest-cons_key c (key, line) h = h

leb-cons : (d : Char) (s : String) → leb 1 (len (String.◌∷◌ d s)) ≡ true
leb-cons d s = le→leb 1 _ (omega (arith, len.cons d s, (len_utf8-pos d).1))

strsep-Filled : (line : String) → ends_line line ≡ true → Filled (strsep is_delimiter line).1
unfolding strsep ends_line
strsep-Filled String.[] h = tt
strsep-Filled (String.◌∷◌ c String.[]) h = rw (newline-is_delimiter c h) tt
strsep-Filled (String.◌∷◌ c (String.◌∷◌ d s)) h = elim (Bool-cases (is_delimiter c)) [
  | inl e ↦ rw e (leb-cons d s)
  | inr e ↦
      rw e
        (rest-cons_key c (strsep is_delimiter (String.◌∷◌ d s)) (strsep-Filled (String.◌∷◌ d s) h))
]

module _ (scan_double : String → Option String) where
  apply_setting-filled :
      (k : Setting) (line : String) (s : Settings)
      → leb 1 (len line) ≡ true
      → (t : Settings) × (apply_setting scan_double k line s ≡ some t)
  unfolding apply_setting chop
  apply_setting-filled Setting.server line s h = rw h (_, refl)
  apply_setting-filled Setting.port line s h = rw h (_, refl)
  apply_setting-filled Setting.dbserver line s h = rw h (_, refl)
  apply_setting-filled Setting.dbname line s h = rw h (_, refl)
  apply_setting-filled Setting.dbuser line s h = rw h (_, refl)
  apply_setting-filled _ line s h = (_, refl)

  apply_line-Filled :
      (program : Program) (p : String × Option String) (s : Settings)
      → Filled p.1
      → (t : Settings) × (apply_line scan_double program p s ≡ some t)
  apply_line-Filled program (key, none) s h = (s, refl)
  apply_line-Filled program (key, some line) s h =
      apply_setting-filled (setting_of program key) line s h

  -- Whatever the keys, a file of which every line ends in a newline is read to its end.
  pub read_lines-terminated :
      (program : Program) (lines : List String) (s : Settings)
      → All (λ line. ends_line line ≡ true) lines
      → (t : Settings) × (read_lines scan_double program lines s ≡ some t)
  unfolding read_lines read_line
  read_lines-terminated program [] s h = (s, refl)
  read_lines-terminated program (line ∷ rest) s h =
      let (next, read) =
        apply_line-Filled program (strsep is_delimiter line) s (strsep-Filled line h.0) in
      rw read (read_lines-terminated program rest next h.1)
