-- ===== src/Screen/Session/Privacy.antt =====
-- A session of a user who is no administrator.
use pfstrase.Prelude.{
  ℕ, String, Bool, true, false, ◌||◌, not, ◌≡◌, some, List, [], ◌∷◌, arith, ◌==◌, eqb, lookup,
  Bool-cases, inl, inr, if◌then◌else◌,
}
use pfstrase.Json.{JsonC}
use pfstrase.Json.Objects.{object_get_ex-object_add}
use pfstrase.Stats.Group.{set_group_tags, tag_names}
use pfstrase.Stats.View.{Grouping, group_rows}
use pfstrase.Stats.View.Hidden.{own_rows, group_rows-own_rows}
use pfstrase.Screen.Keys.{grouped_by}
use pfstrase.Screen.Session.{run, Options, Argument, filters, in_admin_group, session}

-- Whether a choice of groups is by user.
abbrev pub by_user : ℕ → Bool
by_user groupby = not (eqb groupby 1 || eqb groupby 5 || eqb groupby 6)

restricted :
    (pw_name : String) (groups : List ℕ) (args : List Argument) (o : Options)
    → in_admin_group groups ≡ false
    → session pw_name groups args ≡ run o
    → o.filter_user ≡ some pw_name
unfolding session
restricted pw_name groups args o plain started = ground (arith, plain)

-- Whether a name is in a list.
abbrev names : String → List String → Bool
names j [] = false
names j (name ∷ rest) = if name == j then true else names j rest

names_uid : (groupby : ℕ) → by_user groupby ≡ true → names "uid" (grouped_by groupby) ≡ true
unfolding grouped_by
names_uid groupby h = ground arith

module _ (J : JsonC) where
  open J use {Json, entries, object_add, object_get_ex, new_string}

  tag_names-present :
      (tags : Json) (l : List String) (j : String)
      → object_get_ex tags j ≡ some (new_string "")
      → object_get_ex (tag_names J tags l) j ≡ some (new_string "")
  unfolding tag_names
  tag_names-present tags [] j h = h
  tag_names-present tags (name ∷ rest) j h =
      tag_names-present (object_add tags name (new_string "")) rest j (
        rw object_get_ex-object_add
          (elim (Bool-cases (name == j)) [ inl e ↦ rw e | inr e ↦ rw e h ]))

  tag_names-names :
      (tags : Json) (l : List String) (j : String)
      → names j l ≡ true
      → object_get_ex (tag_names J tags l) j ≡ some (new_string "")
  unfolding tag_names
  tag_names-names tags [] j h = cc
  tag_names-names tags (name ∷ rest) j h =
      let next = object_add tags name (new_string "") in
      elim (Bool-cases (name == j)) [
        | inl e ↦ tag_names-present next rest j (rw (object_get_ex-object_add, e))
        | inr e ↦ tag_names-names next rest j (rw e at h)
      ]

  uid_listed :
      (groupby : ℕ)
      → by_user groupby ≡ true
      → lookup "uid" (entries (set_group_tags J (grouped_by groupby))) ≡ some (new_string "")
  unfolding set_group_tags
  uid_listed groupby h =
      rw (← J.object_get_ex-entries (set_group_tags J (grouped_by groupby)) "uid")
        (tag_names-names J.new_object (grouped_by groupby) "uid" (names_uid groupby h))

  -- Whatever options a user gives who is in no administrators' group, in the views by user, job or
  -- client and in the default one the groups of a server are those of its rows without the
  -- rows that name another user.
  pub session-own_rows :
      (pw_name : String) (groups : List ℕ) (args : List Argument) (o : Options) (groupby : ℕ)
      → in_admin_group groups ≡ false
      → session pw_name groups args ≡ run o
      → by_user groupby ≡ true
      → (server : String) (time : Json) (g : Grouping J) (rows : List (String × Json))
      → group_rows J (set_group_tags J (grouped_by groupby)) (filters o) server time g rows
        ≡ group_rows J
            (set_group_tags J (grouped_by groupby))
            (filters o)
            server
            time
            g
            (own_rows J pw_name rows)
  session-own_rows pw_name groups args o groupby plain started shown server time g rows =
      group_rows-own_rows J (set_group_tags J (grouped_by groupby)) (filters o) server time pw_name
        (restricted pw_name groups args o plain started) (uid_listed groupby shown) g rows
