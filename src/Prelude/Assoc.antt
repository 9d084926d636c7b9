-- ===== src/Prelude/Assoc.antt =====
-- Tables of a program that iterates over them: an association list keeps the order in which its
-- keys first arrived, and a write to a key that is there stays in its place.
use Prim.Native.String.{String}
use mathlib.Core.Bool.{false}
use mathlib.Core.Path.{◌≡◌, refl}
use mathlib.Core.Option.{Option, none, some}
use mathlib.Core.List.{List, [], ◌∷◌}
use native.Mathlib.Omega.{arith}
use text.Mathlib.Text.{◌==◌}
use text.Mathlib.TextEquality.{eq_iff}
use text.Mathlib.TextPositions.{eq_refl}
use mathlib.Core.Path.{subst}
use mathlib.Core.Logic.{inl, inr}
use pfstrase.Prelude.Tests.{if◌then◌else◌, Bool-cases}
use pfstrase.Prelude.Lists.{All}

module _ {ℓ} {V : Type ℓ} where
  -- A write replaces the value of its key, or adds an entry at the end.
  unfoldable pub insert : String → V → List (String × V) → List (String × V)
  insert key new [] = (key, new) ∷ []
  insert key new ((name, old) ∷ rest) =
      if name == key then (key, new) ∷ rest else (name, old) ∷ insert key new rest

  unfoldable pub lookup : String → List (String × V) → Option V
  lookup key [] = none
  lookup key ((name, value) ∷ rest) = if name == key then some value else lookup key rest

  -- A key is looked up among the keys of the table behind an entry.
  abbrev pub Absent : String → List (String × V) → Type 0
  Absent k [] = Unit
  Absent k ((j, v) ∷ m) = ((j == k) ≡ false) × Absent k m

  -- No key occurs twice.
  abbrev pub DistinctKeys : List (String × V) → Type 0
  DistinctKeys [] = Unit
  DistinctKeys ((j, v) ∷ m) = Absent j m × DistinctKeys m

  -- After a write, its key has the new value and every other key what it had.
  pub lookup-insert :
      (key asked : String) (new : V) (table : List (String × V))
      → lookup asked (insert key new table)
        ≡ (if key == asked then some new else lookup asked table)
  unfolding lookup insert
  lookup-insert key asked new [] = refl
  lookup-insert key asked new ((name, old) ∷ rest) = ground (
    arith,
    lookup-insert key asked new rest,
    eq_iff name key,
    eq_iff name asked,
    eq_iff key asked,
  )

  pub lookup-Absent : (k : String) (m : List (String × V)) → Absent k m → lookup k m ≡ none
  unfolding lookup
  lookup-Absent k [] h = refl
  lookup-Absent k ((j, v) ∷ m) h = ground (arith, lookup-Absent k m h.1)

  own_cons :
      (k : String) (v : V) (l m : List (String × V))
      → Absent k m
      → All (λ e. lookup e.0 l ≡ some e.1) m
      → All (λ e. lookup e.0 ((k, v) ∷ l) ≡ some e.1) m
  unfolding lookup
  own_cons k v l [] a h = tt
  own_cons k v l ((j, w) ∷ m) a h =
      (ground (arith, eq_iff k j, eq_iff j k, h.0), own_cons k v l m a.1 h.1)

  -- A table without repeated keys finds every one of its entries.
  pub lookup_own : (l : List (String × V)) → DistinctKeys l → All (λ e. lookup e.0 l ≡ some e.1) l
  unfolding lookup
  lookup_own [] d = tt
  lookup_own ((k, v) ∷ l) d = (ground (arith, eq_refl k), own_cons k v l l d.0 (lookup_own l d.1))

  Absent-insert :
      (k key : String) (new : V) (l : List (String × V))
      → (key == k) ≡ false
      → Absent k l
      → Absent k (insert key new l)
  unfolding insert
  Absent-insert k key new [] other a = (other, tt)
  Absent-insert k key new ((j, v) ∷ l) other a = elim (Bool-cases (j == key)) [
    | inl e ↦ rw e (other, a.1)
    | inr e ↦ rw e (a.0, Absent-insert k key new l other a.1)
  ]

  -- A write keeps the keys of a table distinct.
  pub insert-DistinctKeys :
      (key : String) (new : V) (l : List (String × V))
      → DistinctKeys l
      → DistinctKeys (insert key new l)
  unfolding insert
  insert-DistinctKeys key new [] d = (tt, tt)
  insert-DistinctKeys key new ((j, v) ∷ l) d = elim (Bool-cases (j == key)) [
    | inl e ↦
        let same : j ≡ key = (eq_iff j key).0 e in rw e (subst (λ k. Absent k l) same d.0, d.1)
    | inr e ↦
        let other : (key == j) ≡ false = ground (arith, e, eq_iff j key, eq_iff key j) in
        rw e (Absent-insert j key new l other d.0, insert-DistinctKeys key new l d.1)
  ]
