-- ===== src/Collect/Units.antt =====
-- client/collect.c: the units of a line of a stats file, which sscanf reads without a width.
use pfstrase.Prelude.{
  ◌<◌, String, ℤ, pos, negsuc, Bool, false, if◌then◌else◌, ◌≡◌, refl, true, Option, none, some,
  List, [], ◌∷◌, All, len, ltb, ◌==◌, Bool-cases, Option-cases, inl, inr, arith,
}
use pfstrase.Json.{JsonC}
use pfstrase.Conf.{strsep}
use pfstrase.Collect.{
  Scanned, unmatched, counted, labelled, summed, Machine, is_space, add_scanned, collect_split,
  collect_line, collect_lines, collect_stats,
}

-- The word and the 0 behind it fit `char units[16]`.
abbrev pub ScannedFits : Scanned → Type 0
ScannedFits unmatched = Unit
ScannedFits (counted count) = Unit
ScannedFits (labelled count units) = len units < 16
ScannedFits (summed count units sum) = len units < 16

abbrev pub LineFits : Machine → String × Option String → Type 0
LineFits env (key, none) = Unit
LineFits env (key, some rest) = ScannedFits (env.scan_stats rest)

-- The units of every line of every file are words of at most 15 bytes, such as "[reqs]".
abbrev pub UnitsFit : Machine → Type 0
UnitsFit env =
    (path : String) (lines : List String)
    → env.fopen path ≡ some lines
    → All (λ line. LineFits env (strsep is_space line)) lines

module _ (J : JsonC) (env : Machine) where
  open J use {Json}

  if-some :
      (b : Bool) (value : Json)
      → b ≡ true
      → (next : Json) × ((if b then some value else none) ≡ some next)
  if-some true value e = (value, refl)
  if-some false value e = cc

  add_scanned-some :
      (key : String) (scanned : Scanned) (stats : Json)
      → ScannedFits scanned
      → (next : Json) × (add_scanned J env key scanned stats ≡ some next)
  unfolding add_scanned
  add_scanned-some key unmatched stats fits = (_, refl)
  add_scanned-some key (counted count) stats fits = (_, refl)
  add_scanned-some key (labelled count units) stats fits =
      if-some (ltb (len units) 16) _ (ground arith)
  add_scanned-some key (summed count units sum) stats fits =
      if-some (ltb (len units) 16) _ (ground arith)

  collect_split-some :
      (split : String × Option String) (stats : Json)
      → LineFits env split
      → (next : Json) × (collect_split J env split stats ≡ some next)
  collect_split-some (key, none) stats fits = (_, refl)
  collect_split-some (key, some rest) stats fits = elim (Bool-cases (key == "snapshot_time")) [
    | inl time ↦ rw time (stats, refl)
    | inr other ↦ rw other (add_scanned-some key (env.scan_stats rest) stats fits)
  ]

  collect_lines-some :
      (lines : List String) (stats : Json)
      → All (λ line. LineFits env (strsep is_space line)) lines
      → (next : Json) × (collect_lines J env lines stats ≡ some next)
  unfolding collect_lines collect_line
  collect_lines-some [] stats fits = (_, refl)
  collect_lines-some (line ∷ rest) stats (here, there) =
      let (next, first) = collect_split-some (strsep is_space line) stats here in
      let (last, more) = collect_lines-some rest next there in (last, rw first more)

  -- A file whose units fit is read to its end.
  pub collect_stats-some :
      UnitsFit env
      → (path : String) (stats : Json)
      → (read : Json × ℤ) × (collect_stats J env path stats ≡ some read)
  unfolding collect_stats
  collect_stats-some fits path stats = elim (Option-cases (env.fopen path)) [
    | inl closed ↦ rw (closed, collect_stats) ((stats, negsuc 0), refl)
    | inr (lines, opened) ↦
        let (next, read) = collect_lines-some lines stats (fits path lines opened) in
        rw (opened, read, collect_stats) ((next, pos 0), refl)
  ]
