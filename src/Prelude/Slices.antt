-- ===== src/Prelude/Slices.antt =====
-- The first bytes of a text that was put together.
use Prim.Native.Nat.{Ordering, compare as compare_ℕ}
use Prim.Native.Char.{Char, len_utf8}
use Prim.Native.String.append
use Prim.Native.String.len
use Prim.Native.String.slice
use Prim.Native.String.{String, slice, len, fits, ◌++◌ as append}
use Prim.Native.Nat.{ℕ, ◌+◌, ◌-◌, ◌≤◌}
use mathlib.Core.Path.{◌≡◌, refl, sym, ap, ◌∙◌}
use native.Mathlib.Omega.{arith}
use native.Mathlib.Bridge.{IsLe, le_by_compare}
use native.Mathlib.Nat.{add-sub_cancel_left, add_assoc}
use text.Mathlib.TextLemmas.{append-nil}
use text.Mathlib.TextPositions.{not-gt-add, NotGt}

fits_whole : (o : Ordering) → NotGt o → (c : Char) (s : String) → fits o c s ≡ String.◌∷◌ c s
fits_whole Ordering.lt h c s = refl
fits_whole Ordering.eq h c s = refl
fits_whole Ordering.gt h c s = elim h [ ]

slice_cons :
    (c : Char) (s : String) (n : ℕ)
    → slice (String.◌∷◌ c s) 0 (len_utf8 c + n) ≡ String.◌∷◌ c (slice s 0 n)
slice_cons c s n =
    slice.cons-zero c s (len_utf8 c + n)
    ∙ fits_whole (compare_ℕ (len_utf8 c) (len_utf8 c + n)) (not-gt-add (len_utf8 c) n) c
        (slice s 0 (len_utf8 c + n - len_utf8 c))
    ∙ ap (λ k. String.◌∷◌ c (slice s 0 k)) (add-sub_cancel_left (len_utf8 c) n)

-- Past the end of the first text, the first bytes are that text and those of the second.
pub slice-append :
    (s t : String) (n : ℕ) → slice (append s t) 0 (len s + n) ≡ append s (slice t 0 n)
slice-append String.[] t n =
    let none : len "" + n ≡ n = ap (λ k. k + n) len.nil ∙ omega arith in
    ap (λ u. slice u 0 (len "" + n)) (append.nil t)
    ∙ ap (λ k. slice t 0 k) none
    ∙ sym (append.nil (slice t 0 n))
slice-append (String.◌∷◌ c s) t n =
    ap (λ u. slice u 0 (len (String.◌∷◌ c s) + n)) (append.cons c s t)
    ∙ ap (λ k. slice (String.◌∷◌ c (append s t)) 0 k)
        (ap (λ w. w + n) (len.cons c s) ∙ add_assoc (len_utf8 c) (len s) n)
    ∙ slice_cons c (append s t) (len s + n)
    ∙ ap (λ u. String.◌∷◌ c u) (slice-append s t n)
    ∙ sym (append.cons c s (slice t 0 n))

-- A text that is no longer than the bound is whole.
pub slice_whole : (s : String) (n : ℕ) → len s ≤ n → slice s 0 n ≡ s
slice_whole s n h =
    let split : len s + (n - len s) ≡ n = omega arith in
    ap (λ u. slice u 0 n) (sym (append-nil s))
    ∙ ap (λ k. slice (append s "") 0 k) (sym split)
    ∙ slice-append s "" (n - len s)
    ∙ ap (append s) (slice.nil 0 (n - len s))
    ∙ append-nil s

-- A character is kept only where it fits.
len-fits :
    (o : Ordering) (c : Char) (s t : String) (n : ℕ)
    → (IsLe o → len_utf8 c ≤ n)
    → (len t ≤ n - len_utf8 c) × (len t ≤ len s)
    → (len (fits o c t) ≤ n) × (len (fits o c t) ≤ len_utf8 c + len s)
unfolding IsLe
len-fits Ordering.lt c s t n room h =
    rw (len.cons c t) (omega (arith, room tt, h.0), omega (arith, h.1))
len-fits Ordering.eq c s t n room h =
    rw (len.cons c t) (omega (arith, room tt, h.0), omega (arith, h.1))
len-fits Ordering.gt c s t n room h = rw len.nil (omega arith, omega arith)

-- No more bytes than the bound, and than there are.
pub len-slice : (s : String) (n : ℕ) → (len (slice s 0 n) ≤ n) × (len (slice s 0 n) ≤ len s)
len-slice String.[] n = rw (slice.nil 0 n, len.nil) (omega arith, omega arith)
len-slice (String.◌∷◌ c s) n =
    rw (slice.cons-zero c s n, len.cons c s)
      (len-fits (compare_ℕ (len_utf8 c) n) c s (slice s 0 (n - len_utf8 c)) n
        (le_by_compare (len_utf8 c) n) (len-slice s (n - len_utf8 c)))
