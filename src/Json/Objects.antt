-- ===== src/Json/Objects.antt =====
-- Reading back what a chain of json-c calls wrote.
use mathlib.Core.List.{append-nil, append_assoc}
use pfstrase.Prelude.{
  String, ◌≡◌, refl, Option, none, some, List, [], ◌∷◌, ◌++◌, ◌==◌, eq_iff, eq_refl, inl, inr,
  arith, lookup, Option-cases, Bool-cases, lookup-insert, lookup-Absent, DistinctKeys, or_else,
  if◌then◌else◌,
}
use pfstrase.Json.{JsonC}

module _ (J : JsonC) where
  open J use {Json, new_object, object_add, object_get_ex, entries, new_array, array_add, items}

  pub object_get_ex-new_object : (k : String) → object_get_ex new_object k ≡ none
  unfolding lookup
  object_get_ex-new_object k = rw (J.object_get_ex-entries, J.entries-new_object)

  pub object_get_ex-object_add :
      (o : Json) (k : String) (v : Json) (j : String)
      → object_get_ex (object_add o k v) j ≡ (if k == j then some v else object_get_ex o j)
  object_get_ex-object_add o k v j =
      simp (J.object_get_ex-entries, J.entries-object_add, lookup-insert)

  -- `if (json_object_object_get_ex(from, key, &tag)) json_object_object_add(to, field, tag)`
  unfoldable pub copy_tag : Json → String → String → Json → Json
  copy_tag from key field to = elim (object_get_ex from key) [
    | none ↦ to
    | some tag ↦ object_add to field tag
  ]

  pub object_get_ex-copy_tag :
      (from : Json) (key field : String) (to : Json) (j : String)
      → object_get_ex (copy_tag from key field to) j
        ≡ or_else (if field == j then object_get_ex from key else none) (object_get_ex to j)
  unfolding copy_tag
  object_get_ex-copy_tag from key field to j = elim (Option-cases (object_get_ex from key)) [
    | inl e ↦ ground (arith, e)
    | inr (tag, e) ↦ ground (arith, e, object_get_ex-object_add to field tag j)
  ]

  -- A `json_object_object_foreach` whose body writes one entry under the key that it visits,
  -- computed from the entry and from what the written object holds there.
  unfoldable pub foreach_add :
      (String → Json → Option Json → Json) → Json → List (String × Json) → Json
  foreach_add f o [] = o
  foreach_add f o ((k, v) ∷ es) = foreach_add f (object_add o k (f k v (object_get_ex o k))) es

  -- The entry that such a loop leaves, in terms of what the two objects held before it.
  abbrev pub written :
      (String → Json → Option Json → Json) → String → Option Json → Option Json → Option Json
  written f k none old = old
  written f k (some v) old = some (f k v old)

  pub object_get_ex-foreach_add :
      (f : String → Json → Option Json → Json) (o : Json) (es : List (String × Json)) (j : String)
      → DistinctKeys es
      → object_get_ex (foreach_add f o es) j ≡ written f j (lookup j es) (object_get_ex o j)
  unfolding foreach_add lookup
  object_get_ex-foreach_add f o [] j h = refl
  object_get_ex-foreach_add f o ((k, v) ∷ es) j h =
      let new = f k v (object_get_ex o k) in
      rw (object_get_ex-foreach_add f (object_add o k new) es j h.1, object_get_ex-object_add)
        (elim (Bool-cases (k == j)) [
          | inl e ↦
              let e' = (eq_iff k j).0 e in
              let away = lookup-Absent k es h.0 in rw (← e', eq_refl, away)
          | inr e ↦ rw e
        ])

  -- A new array with the given elements.
  unfoldable pub array_from : Json → List Json → Json
  array_from a [] = a
  array_from a (x ∷ xs) = array_from (array_add a x) xs

  pub items-array_from : (a : Json) (xs : List Json) → items (array_from a xs) ≡ items a ++ xs
  unfolding array_from
  items-array_from a [] = rw append-nil
  items-array_from a (x ∷ xs) =
      simp (items-array_from (array_add a x) xs, J.items-array_add, append_assoc)
