-- ===== src/Collect.antt =====
-- client/collect.c: what a client or a server of Lustre reports of itself, read from its files.
-- A file is its lines and a directory its entries; `none` is one that does not open.
pub mod Units
pub mod Devices
pub mod Discover
pub mod Exports
pub mod Report
pub mod Send
use Prim.Native.Char.{Char, code}
use Prim.Native.String.{◌++◌ as append}
use pfstrase.Prelude.{
  ℕ, String, Bool, true, false, not, ◌&&◌, ◌||◌, Option, none, some, List, [], ◌∷◌, ◌==◌, ℤ, pos,
  negsuc, eqb, slice, snprintf, ltb, len, ◌>>=◌, if◌then◌else◌,
}
use pfstrase.Prelude.Int.{wrap64}
use pfstrase.Json.{JsonC}
use pfstrase.Conf.{strsep}

-- `struct dirent`: d_type is DT_DIR, and d_name.
pub record Dirent : Type 0 where
  pub is_dir : Bool
  pub d_name : String

-- What `sscanf(line, "%llu samples %s %*u %*u %llu", &count, units, &sum)` reads: nothing, a
-- count alone, a count with its units, or all three.
pub data Scanned : Type 0 where
  unmatched : Scanned
  counted : ℕ → Scanned
  labelled : ℕ → String → Scanned
  summed : ℕ → String → ℕ → Scanned

-- What the collector calls of the system and of the C library.
pub record Machine : Type 0 where
  pub opendir : String → Option (List Dirent)
  pub fopen : String → Option (List String)
  pub scan_stats : String → Scanned
  -- `fscanf(fd, "%llu")`, and `fscanf(fd, "%s")` of a word that fits its buffer
  pub scan_number : List String → Option ℕ
  pub scan_word : List String → Option String
  -- as many of the numbers of `sscanf(rest, "%llu %llu …")` as match
  pub scan_numbers : String → List ℕ

-- The delimiters " :\t\n\v\f\r".
unfoldable pub is_space : Char → Bool
is_space c =
    eqb (code c) b' '
    || eqb (code c) b':'
    || eqb (code c) b'\t'
    || eqb (code c) b'\n'
    || eqb (code c) 11
    || eqb (code c) 12
    || eqb (code c) b'\r'

-- `typede->d_type != DT_DIR || typede->d_name[0] == '.'` is passed over.
unfoldable pub is_listed : Dirent → Bool
is_listed de = de.is_dir && not (slice de.d_name 0 1 == ".")

-- A path in `char path[256]`.
unfoldable pub joined_path : String → String → String
joined_path dir name = snprintf 256 (append dir (append "/" name))

module _ (J : JsonC) (env : Machine) where
  open J use {Json, object_add, new_string, new_int64, array_add, entries}

  -- `unsigned long long` into int64_t
  abbrev pub count_json : ℕ → Json
  count_json n = new_int64 (wrap64 (pos n))

  -- `char units[16]`, which sscanf fills without a width, and `char sum_key[32]`; `none` is a write
  -- behind `units`.
  unfoldable pub add_scanned : String → Scanned → Json → Option Json
  add_scanned key unmatched stats = some stats
  add_scanned key (counted count) stats = some (object_add stats key (count_json count))
  add_scanned key (labelled count units) stats =
      if ltb (len units) 16 then some (object_add stats key (count_json count)) else none
  add_scanned key (summed count units sum) stats =
      if ltb (len units) 16
      then some (
          object_add (object_add stats key (count_json count))
            (snprintf 32 (append key (append "_" units))) (count_json sum))
      else none

  abbrev pub collect_split : String × Option String → Json → Option Json
  collect_split (key, none) stats = some stats
  collect_split (key, some line) stats =
      if key == "snapshot_time" then some stats else add_scanned key (env.scan_stats line) stats

  -- The body of the loop over the lines.
  unfoldable pub collect_line : String → Json → Option Json
  collect_line line stats = collect_split (strsep is_space line) stats

  unfoldable pub collect_lines : List String → Json → Option Json
  collect_lines [] stats = some stats
  collect_lines (line ∷ rest) stats = do next ← collect_line line stats; collect_lines rest next

  -- The stats and the return code.
  unfoldable pub collect_stats : String → Json → Option (Json × ℤ)
  collect_stats path stats = elim (env.fopen path) [
    | none ↦ some (stats, negsuc 0)
    | some lines ↦ do next ← collect_lines lines stats; some (next, pos 0)
  ]

  unfoldable pub collect_single : String → Json → String → Json × ℤ
  collect_single filepath stats key = elim (env.fopen filepath) [
    | none ↦ (stats, negsuc 0)
    | some lines ↦ elim (env.scan_number lines) [
      | none ↦ (stats, negsuc 0)
      | some val ↦ (object_add stats key (count_json val), pos 0)
    ]
  ]

  unfoldable pub collect_string : String → Json → String → Json × ℤ
  collect_string filepath stats key = elim (env.fopen filepath) [
    | none ↦ (stats, negsuc 0)
    | some lines ↦ elim (env.scan_word lines) [
      | none ↦ (stats, negsuc 0)
      | some val ↦ (object_add stats key (new_string val), pos 0)
    ]
  ]

  -- An entry whose stats are empty is dropped.
  abbrev add_filled : Json → Json → Json → List (String × Json) → Json
  add_filled jarray tags stats [] = jarray
  add_filled jarray tags stats (e ∷ rest) = array_add jarray (object_add tags "stats" stats)

  unfoldable pub add_entry : Json → Json → Json → Json
  add_entry jarray tags stats = add_filled jarray tags stats (entries stats)
