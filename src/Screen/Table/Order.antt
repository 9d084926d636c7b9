-- ===== src/Screen/Table/Order.antt =====
-- What qsort, which sorts the rows of the table, wants of a comparison.
use pfstrase.Prelude.{
  ℤ, pos, negsuc, zero, suc, Bool, true, false, ◌&&◌, ◌||◌, List, [], ◌∷◌, if◌then◌else◌,
}

-- A comparison's result by its sign.
abbrev comes_first : ℤ → Bool
comes_first (pos zero) = true
comes_first (pos (suc n)) = false
comes_first (negsuc n) = true

abbrev all_of {ℓ} : {A : Type ℓ} → (A → Bool) → List A → Bool
all_of test [] = true
all_of test (x ∷ xs) = test x && all_of test xs

abbrev implies : Bool → Bool → Bool
implies a b = if a then b else true

abbrev is_equal : ℤ → Bool
is_equal (pos zero) = true
is_equal n = false

-- Either way of comparing two elements gives the opposite sign.
abbrev is_opposite : ℤ → ℤ → Bool
is_opposite a b =
    (comes_first a || comes_first b)
    && implies (comes_first a && comes_first b) (is_equal a && is_equal b)

-- A comparison that orders the elements of a list, as qsort wants it.
abbrev pub is_order {ℓ} : {A : Type ℓ} → (A → A → ℤ) → List A → Bool
is_order compare l =
    all_of
      (λ x.
        all_of
          (λ y.
            is_opposite (compare x y) (compare y x)
            && all_of
                (λ z.
                  implies (comes_first (compare x y) && comes_first (compare y z))
                    (comes_first (compare x z)))
                l)
          l)
      l
