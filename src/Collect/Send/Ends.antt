-- ===== src/Collect/Send/Ends.antt =====
-- The loop over the sends ends.
use pfstrase.Prelude.{
  ℕ, zero, suc, ◌+◌, ◌-◌, ◌≤◌, ◌<◌, ◌≡◌, refl, some, eqb, arith, Bool-cases, inl, inr,
}
use pfstrase.Collect.Send.{send_loop}

-- Whatever sizes the sends take, as long as none takes more than it was given: the loop ends, with
-- no more bytes sent than the buffer has, at a send that takes nothing. As many rounds as there are
-- bytes left, and one, are enough.
pub send_loop-ends :
    (send : ℕ → ℕ → ℕ) (fuel size p : ℕ)
    → ((q n : ℕ) → send q n ≤ n)
    → p ≤ size
    → size - p < fuel
    → (q : ℕ) × (send_loop send fuel size p ≡ some q) × (q ≤ size) × (send q (size - q) ≡ 0)
unfolding send_loop
send_loop-ends send zero size p within h enough = ground arith
send_loop-ends send (suc fuel) size p within h enough =
    elim (Bool-cases (eqb (send p (size - p)) 0)) [
      | inl stops ↦ (p, rw stops refl, h, ground (arith, stops))
      | inr goes_on ↦
          let taken = within p (size - p) in
          let some_bytes : 1 ≤ send p (size - p) = ground (arith, goes_on) in
          let (q, ends, bound, last) =
            send_loop-ends send fuel size (p + send p (size - p)) within (omega (arith, taken))
              (omega (arith, some_bytes, taken)) in
          (q, rw goes_on ends, bound, last)
    ]
