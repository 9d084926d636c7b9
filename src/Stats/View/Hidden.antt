-- ===== src/Stats/View/Hidden.antt =====
-- What the user filter keeps from the screen.
use mathlib.Core.Path.{fun_ext}
use pfstrase.Prelude.{
  String, Bool, true, false, ◌≡◌, refl, Option, none, some, List, [], ◌∷◌, ◌==◌, ◌>>=◌, eq_iff,
  or_else, lookup, Option-cases, Bool-cases, inl, inr, ap, if◌then◌else◌,
}
use pfstrase.Json.{JsonC}
use pfstrase.Json.Objects.{copy_tag, object_get_ex-copy_tag, object_get_ex-new_object}
use pfstrase.Stats.Group.{select_tags}
use pfstrase.Stats.View.{Filters, Grouping, passes, tag_matches, group_row, group_rows}

module _ (J : JsonC) where
  open J use {
    Json, new_object, object_add, object_get_ex, entries, get_string, tokener_parse, new_string,
  }

  or_else_idem : (o : Option Json) → or_else o o ≡ o
  or_else_idem none = refl
  or_else_idem (some x) = refl

  or_else-none : (o : Option Json) → or_else o none ≡ o
  or_else-none none = refl
  or_else-none (some x) = refl

  select_tags_same :
      (from tags : Json) (names : List (String × Json)) (j : String)
      → object_get_ex tags j ≡ object_get_ex from j
      → object_get_ex (select_tags J from tags names) j ≡ object_get_ex from j
  unfolding select_tags
  select_tags_same from tags [] j same = same
  select_tags_same from tags ((name, v) ∷ rest) j same =
      select_tags_same from (copy_tag J from name name tags) rest j (
        rw object_get_ex-copy_tag (elim (Bool-cases (name == j)) [
          | inl e ↦ rw (e, same, (eq_iff name j).0 e) (or_else_idem (object_get_ex from j))
          | inr e ↦ rw e same
        ]))

  -- A selected tag is the tag of the row.
  select_tags_selected :
      (from tags : Json) (names : List (String × Json)) (j : String) {v : Json}
      → lookup j names ≡ some v
      → object_get_ex tags j ≡ none
      → object_get_ex (select_tags J from tags names) j ≡ object_get_ex from j
  unfolding select_tags lookup
  select_tags_selected from tags [] j found fresh = cc
  select_tags_selected from tags ((name, w) ∷ rest) j found fresh =
      let next = copy_tag J from name name tags in
      elim (Bool-cases (name == j)) [
        | inl e ↦ select_tags_same from next rest j (
            rw (object_get_ex-copy_tag, e, fresh, (eq_iff name j).0 e)
              (or_else-none (object_get_ex from j)))
        | inr e ↦
            select_tags_selected from next rest j (rw e at found)
              (rw (object_get_ex-copy_tag, e) fresh)
      ]

  -- Whether a row may count for a user: its tags do not name another one.
  abbrev owned_tags : String → Option Json → Bool
  owned_tags user none = true
  owned_tags user (some pre_tags) = tag_matches J (some user) (object_get_ex pre_tags "uid")

  abbrev pub owned : String → String → Bool
  owned user tags = if tags == "time" then true else owned_tags user (tokener_parse tags)

  -- The rows that do not name another user.
  abbrev pub own_rows : String → List (String × Json) → List (String × Json)
  own_rows user [] = []
  own_rows user ((tags, rates) ∷ rest) =
      if owned user tags then (tags, rates) ∷ own_rows user rest else own_rows user rest

  module _ (group_tags : Json) (f : Filters) (server : String) (time : Json) (user : String) where
    foreign_row :
        {w : Json}
        → f.user ≡ some user
        → lookup "uid" (entries group_tags) ≡ some w
        → (g : Grouping J) (tags : String) (rates : Json) → owned user tags ≡ false
        → group_row J group_tags f server time g tags rates ≡ some g
    unfolding group_row passes
    foreign_row filtered listed g tags rates other = elim (Bool-cases (tags == "time")) [
      | inl e ↦ let impossible = rw e at other in cc
      | inr e ↦ elim (Option-cases (tokener_parse tags)) [
        | inl bad ↦ rw (e, bad, group_row)
        | inr (pre, good) ↦
            let chosen = select_tags J pre new_object (entries group_tags) in
            let uid : object_get_ex chosen "uid" ≡ object_get_ex pre "uid" =
              select_tags_selected pre new_object (entries group_tags) "uid" listed
                (object_get_ex-new_object J "uid") in
            let others : tag_matches J (some user) (object_get_ex pre "uid") ≡ false =
              rw (e, good) at other in
            rw (e, good, group_row, passes, filtered, uid, others)
      ]
    ]

    -- Where the groups are by user and a user filter is set, the groups of a server are
    -- those of its rows without the rows that name another user.
    pub group_rows-own_rows :
        {w : Json}
        → f.user ≡ some user
        → lookup "uid" (entries group_tags) ≡ some w
        → (g : Grouping J) (rows : List (String × Json))
        → group_rows J group_tags f server time g rows
          ≡ group_rows J group_tags f server time g (own_rows user rows)
    unfolding group_rows
    group_rows-own_rows filtered listed g [] = refl
    group_rows-own_rows filtered listed g ((tags, rates) ∷ rest) =
        elim (Bool-cases (owned user tags)) [
          | inl mine ↦ rw mine (
              ap (λ k. group_row J group_tags f server time g tags rates >>= k)
                (fun_ext (λ next. group_rows-own_rows filtered listed next rest)))
          | inr other ↦
              rw (other, foreign_row filtered listed g tags rates other)
                (group_rows-own_rows filtered listed g rest)
        ]
