-- ===== src/Screen/Draw/Widths.antt =====
-- How wide the columns are, and how many of them fit a row.
use text.Mathlib.TextPositions.{len-append}
use pfstrase.Prelude.{
  ℕ, zero, suc, ◌+◌, ◌*◌, ◌<◌, ◌≡◌, refl, ap, ◌∙◌, ◌↔◌, String, Option, none, some, List, [], ◌∷◌,
  ◌++◌, map, All, length, len, arith, ◌>>=◌, none_of_map,
}
use pfstrase.Prelude.Slices.{len-slice}
use pfstrase.Json.{JsonC}
use pfstrase.Buffer.{empty_buffer, print_pieces}
use pfstrase.Buffer.Fits.{length_before_last, print_pieces-none_iff}
use pfstrase.Screen.Draw.{spaces, left_column, tag_column, event_column, row_pieces, row_text}

len-spaces : (n : ℕ) → len (spaces n) ≡ n
len-spaces zero = refl
len-spaces (suc n) = len-append " " (spaces n) ∙ omega (arith, len-spaces n)

-- A column of tags has 17 bytes.
len-left_column : (s : String) → len (left_column s) ≡ 17
unfolding left_column
len-left_column s =
    let cut = len-slice s 16 in rw (len-append, len-append, len-spaces) (omega (arith, cut.0))

none_iff_behind :
    (size : ℕ) (front : List String) (piece : String) (rest : List String)
    → (print_pieces size (front ++ piece ∷ rest) empty_buffer ≡ none)
      ↔ (size < 0 + length_before_last (front ++ piece ∷ rest))
none_iff_behind size [] piece rest = print_pieces-none_iff size piece rest empty_buffer
none_iff_behind size (first ∷ front) piece rest =
    print_pieces-none_iff size first (front ++ piece ∷ rest) empty_buffer

module _ {ℓ κ} {A : Type ℓ} {B : Type κ} where
  -- Columns of known widths, of which the last one does not count.
  columns_before_last :
      (tag : A → String) (event : B → String) (tags : List A) (e : B) (es : List B)
      → ((a : A) → len (tag a) ≡ 17)
      → All (λ b. len (event b) ≡ 15) (e ∷ es)
      → length_before_last (map tag tags ++ map event (e ∷ es)) ≡ 17 * length tags + 15 * length es
  columns_before_last tag event [] e [] wide widths = omega arith
  columns_before_last tag event [] e (e' ∷ es) wide widths =
      omega (arith, widths.0, columns_before_last tag event [] e' es wide widths.1)
  columns_before_last tag event (a ∷ []) e es wide widths =
      omega (arith, wide a, columns_before_last tag event [] e es wide widths)
  columns_before_last tag event (a ∷ a' ∷ tags) e es wide widths =
      omega (arith, wide a, columns_before_last tag event (a' ∷ tags) e es wide widths)

module _ (J : JsonC) (print_14_2f : J.Double → String) where
  open J use {Json, object_get_ex, entries, get_string}

  len-tag_column : (tid : Option Json) → len (tag_column J print_14_2f tid) ≡ 17
  len-tag_column none = len-left_column ""
  len-tag_column (some tid) = len-left_column (get_string tid)

  -- A row is written outside its array exactly if its columns without the last one are wider than
  -- 512 bytes, 17 for each tag and 15 for each event. Every value fits its column, and there is an
  -- event.
  pub row_text-none_iff :
      (group_tags screvents de : Json) (e : String × Json) (es : List (String × Json))
      → entries screvents ≡ e ∷ es
      → All (λ e. len (event_column J print_14_2f (object_get_ex de e.0)) ≡ 15) (e ∷ es)
      → (row_text J print_14_2f group_tags screvents de ≡ none)
        ↔ (512 < 17 * length (entries group_tags) + 15 * length es)
  unfolding row_text row_pieces
  row_text-none_iff group_tags screvents de e es events widths =
      let tag = λ (t : String × Json). tag_column J print_14_2f (object_get_ex de t.0) in
      let event = λ (t : String × Json). event_column J print_14_2f (object_get_ex de t.0) in
      let tags = entries group_tags in
      let total =
        columns_before_last tag event tags e es (λ t. len-tag_column (object_get_ex de t.0))
          widths in
      let outside = none_iff_behind 512 (map tag tags) (event e) (map event es) in
      let pieces = map tag tags ++ event e ∷ map event es in
      rw events (
        (λ failed. omega (
          arith,
          total,
          outside.0 (none_of_map (print_pieces 512 pieces empty_buffer) (λ b. b.text) failed),
        )),
        (λ wide. ap (λ m. m >>= λ b. some b.text) (outside.1 (omega (arith, total, wide)))),
      )
