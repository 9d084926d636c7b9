-- ===== src/Buffer.antt =====
-- `cur += snprintf(cur, end - cur, …)`: a text that is printed piece by piece into an array, as
-- server/pq.c and server/screen.c do. snprintf returns the length that the whole piece has, so
-- that `cur` passes `end` where a piece is cut; the next call then gets a negative size, which is a
-- huge size_t, and writes outside the array: `none`.
pub mod Fits
pub mod Lengths
use Prim.Native.String.{◌++◌ as append}
use pfstrase.Prelude.{
  ℕ, ◌+◌, ◌-◌, String, Option, none, some, List, [], ◌∷◌, ◌>>=◌, len, slice, leb, ltb,
  if◌then◌else◌,
}

-- The text in the array, and `cur` as the number of bytes before it.
pub record Buffer : Type 0 where
  pub text : String
  pub cur : ℕ

abbrev pub empty_buffer : Buffer
empty_buffer = record { text = ""; cur = 0 }

-- What a call with `end - cur` bytes left adds: nothing without room, not even a zero.
unfoldable pub printed : ℕ → Buffer → String → String
printed size b piece =
    if leb size b.cur then b.text else append b.text (slice piece 0 (size - b.cur - 1))

unfoldable pub print_piece : ℕ → String → Buffer → Option Buffer
print_piece size piece b =
    if ltb size b.cur
    then none
    else some (record { text = printed size b piece; cur = b.cur + len piece })

unfoldable pub print_pieces : ℕ → List String → Buffer → Option Buffer
print_pieces size [] b = some b
print_pieces size (piece ∷ rest) b = do next ← print_piece size piece b; print_pieces size rest next
