-- ===== src/Buffer/Lengths.antt =====
-- How long the text in an array is while pieces are printed into it.
use text.Mathlib.TextPositions.{len-append}
use pfstrase.Prelude.{
  ℕ, ◌+◌, ◌-◌, ◌≤◌, ◌<◌, ◌≡◌, sym, ap, ◌∙◌, String, none, some, List, [], ◌∷◌, len, arith, ltb, leb,
  Bool-cases, inl, inr, if◌then◌else◌, >>=-eq-some, some_inj,
}
use pfstrase.Prelude.Slices.{len-slice}
use pfstrase.Buffer.{Buffer, printed, print_piece, print_pieces}

-- What is in an array never gets shorter, and stays within it.
pub record Bounded (size : ℕ) (old new : Buffer) : Type 0 where
  pub longer : len old.text ≤ len new.text
  pub within : len new.text < size

pub length_printed :
    (size : ℕ) (piece : String) (b : Buffer)
    → len b.text < size
    → len b.text ≤ b.cur
    → (len b.text ≤ len (printed size b piece))
      × (len (printed size b piece) < size)
      × (len (printed size b piece) ≤ b.cur + len piece)
unfolding printed
length_printed size piece b short behind = elim (Bool-cases (leb size b.cur)) [
  | inl full ↦ rw full (omega arith, short, omega arith)
  | inr room ↦
      let cut = len-slice piece (size - b.cur - 1) in
      let left : 1 ≤ size - b.cur = ground (arith, room) in
      rw (room, len-append) (omega arith, omega arith, omega arith)
]

pub print_piece-some :
    (size : ℕ) (piece : String) (b next : Buffer)
    → print_piece size piece b ≡ some next
    → next ≡ record { text = printed size b piece; cur = b.cur + len piece }
unfolding print_piece
print_piece-some size piece b next put = elim (Bool-cases (ltb size b.cur)) [
  | inl outside ↦ ground (arith, outside, put)
  | inr inside ↦ sym (
      some_inj (
        sym (
          ap
            (λ t.
              if t
              then none
              else some (record { text = printed size b piece; cur = b.cur + len piece }))
            inside)
        ∙ put))
]

pub print_pieces-Bounded :
    (size : ℕ) (pieces : List String) (b b' : Buffer)
    → len b.text < size
    → len b.text ≤ b.cur
    → print_pieces size pieces b ≡ some b'
    → Bounded size b b'
unfolding print_pieces
print_pieces-Bounded size [] b b' short behind done =
    rw (← some_inj done) (record { longer = omega arith; within = short })
print_pieces-Bounded size (piece ∷ rest) b b' short behind done =
    let (next, put, more) =
      >>=-eq-some (print_piece size piece b) (λ n. print_pieces size rest n) done in
    let (longer, within, new_behind) = length_printed size piece b short behind in
    let is_next = print_piece-some size piece b next put in
    let new : Buffer = record { text = printed size b piece; cur = b.cur + len piece } in
    let done_next : print_pieces size rest new ≡ some b' = rw (← is_next) more in
    let after = print_pieces-Bounded size rest new b' within new_behind done_next in
    record { longer = omega (arith, longer, after.longer); within = after.within }
