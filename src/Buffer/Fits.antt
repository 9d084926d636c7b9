-- ===== src/Buffer/Fits.antt =====
-- When the pieces of a text fit their array, and when printing them leaves it.
use Prim.Native.String.{◌++◌ as append}
use text.Mathlib.TextLemmas.{append-nil, append_assoc}
use text.Mathlib.TextPositions.{len-append}
use pfstrase.Prelude.{
  ℕ, ◌+◌, ◌-◌, ◌<◌, ◌≡◌, ◌↔◌, String, none, some, List, [], ◌∷◌, len, slice, arith, false, ltb, leb,
}
use native.Mathlib.Nat.{add_assoc}
use pfstrase.Prelude.Slices.{slice_whole}
use pfstrase.Buffer.{Buffer, printed, print_piece, print_pieces}

-- The pieces put together.
abbrev pub joined_pieces : List String → String
joined_pieces [] = ""
joined_pieces (piece ∷ rest) = append piece (joined_pieces rest)

-- The length of all pieces but the last one.
abbrev pub length_before_last : List String → ℕ
length_before_last [] = 0
length_before_last (piece ∷ []) = 0
length_before_last (piece ∷ next ∷ rest) = len piece + length_before_last (next ∷ rest)

-- Pieces that fit with their zero are printed one behind the other.
pub print_pieces_fit :
    (size : ℕ) (pieces : List String) (b : Buffer)
    → b.cur + len (joined_pieces pieces) < size
    → print_pieces size pieces b
      ≡ some (record {
        text = append b.text (joined_pieces pieces);
        cur = b.cur + len (joined_pieces pieces);
      })
unfolding print_pieces print_piece printed
print_pieces_fit size [] b fits =
    let none_added : b.cur + 0 ≡ b.cur = omega arith in rw (append-nil b.text, none_added)
print_pieces_fit size (piece ∷ rest) b fits =
    let total : len (append piece (joined_pieces rest)) ≡ len piece + len (joined_pieces rest) =
      len-append piece (joined_pieces rest) in
    let room : leb size b.cur ≡ false = ground (arith, total) in
    let inside : ltb size b.cur ≡ false = ground (arith, total) in
    let whole : slice piece 0 (size - b.cur - 1) ≡ piece =
      slice_whole piece _ (omega (arith, total)) in
    let after = add_assoc b.cur (len piece) (len (joined_pieces rest)) in
    let next : Buffer = record { text = append b.text piece; cur = b.cur + len piece } in
    rw (inside, room, whole, total, ← after, ← append_assoc)
      (print_pieces_fit size rest next (omega (arith, total)))

-- Printing leaves the array exactly if the pieces before the last one are longer than it.
pub print_pieces-none_iff :
    (size : ℕ) (piece : String) (rest : List String) (b : Buffer)
    → (print_pieces size (piece ∷ rest) b ≡ none)
      ↔ (size < b.cur + length_before_last (piece ∷ rest))
unfolding print_pieces print_piece
print_pieces-none_iff size piece [] b = ground arith
print_pieces-none_iff size piece (next ∷ rest) b =
    let then_rest =
      print_pieces-none_iff size next rest
        (record { text = printed size b piece; cur = b.cur + len piece }) in
    ground (arith, then_rest)
