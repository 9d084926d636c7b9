-- ===== src/Stats/Totals/Sums.antt =====
-- add_stats: the sum of each event under each tag.
use pfstrase.Prelude.{
  String, ◌≡◌, refl, Option, none, some, List, [], ◌∷◌, ◌==◌, eq_iff, DistinctKeys, All,
  Option-cases, Bool-cases, inl, inr, ◌∙◌, if◌then◌else◌,
}
use pfstrase.Json.{JsonC}
use pfstrase.Json.Objects.{written, object_get_ex-foreach_add, object_get_ex-object_add}
use pfstrase.Stats.Totals.{accumulate, add_stats}

module _ (J : JsonC) where
  open J use {Json, object_get_ex, object_add, entries, add, get_double, new_double}

  abbrev within : Option Json → String → Option Json
  within none event = none
  within (some stats) event = object_get_ex stats event

  -- The event under a tag of a map, if both are there.
  abbrev pub event_of : Json → String → String → Option Json
  event_of map tags event = within (object_get_ex map tags) event

  -- An event of one entry added to what its tag holds of it.
  abbrev pub plus : String → Option Json → Option Json → Option Json
  plus event none old = old
  plus event (some new) none = some new
  plus event (some new) (some pre) =
      some (if event == "load" then new else new_double (add (get_double new) (get_double pre)))

  plus-none : (event : String) (o : Option Json) → plus event o none ≡ o
  plus-none event none = refl
  plus-none event (some v) = refl

  written-plus :
      (event : String) (o old : Option Json)
      → written J (accumulate J) event o old ≡ plus event o old
  written-plus event none old = refl
  written-plus event (some v) none = refl
  written-plus event (some v) (some pre) = refl

  -- One call adds each event of the entry to the event under its tag, and no other tag changes.
  pub event_of-add_stats :
      (map stats : Json) (group tags event : String)
      → DistinctKeys (entries stats)
      → event_of (add_stats J map group stats) tags event ≡ (
          if group == tags
          then plus event (object_get_ex stats event) (event_of map tags event)
          else event_of map tags event)
  unfolding add_stats
  event_of-add_stats map stats group tags event distinct =
      elim (Option-cases (object_get_ex map group)) [
        | inl new ↦
            rw (new, add_stats, object_get_ex-object_add)
              (elim (Bool-cases (group == tags)) [
                | inl e ↦
                    let at_group : group ≡ tags = (eq_iff group tags).0 e in
                    rw (e, ← at_group, new, plus-none)
                | inr e ↦ rw e
              ])
        | inr (pre, there) ↦
            rw (there, add_stats, object_get_ex-object_add)
              (elim (Bool-cases (group == tags)) [
                | inl e ↦
                    let at_group : group ≡ tags = (eq_iff group tags).0 e in
                    rw (e, ← at_group, there)
                      (object_get_ex-foreach_add J (accumulate J) pre (entries stats) event distinct
                        ∙ rw (← J.object_get_ex-entries stats event) (
                            written-plus event (object_get_ex stats event)
                              (object_get_ex pre event)))
                | inr e ↦ rw e
              ])
      ]

  -- The entries of a list, added in turn.
  unfoldable pub add_all : Json → List (String × Json) → Json
  add_all map [] = map
  add_all map ((group, stats) ∷ rest) = add_all (add_stats J map group stats) rest

  -- What the entries of one tag add up to, starting from what the map held.
  abbrev pub tally : String → String → Option Json → List (String × Json) → Option Json
  tally tags event sum [] = sum
  tally tags event sum ((group, stats) ∷ rest) =
      tally tags event (if group == tags then plus event (object_get_ex stats event) sum else sum)
        rest

  abbrev pub AllDistinct : List (String × Json) → Type 0
  AllDistinct = All (λ e. DistinctKeys (entries e.1))

  -- Adding entries in turn leaves, for each event under each tag, the sum over the entries of
  -- that tag in their order (of the load, the last), where no entry repeats an event.
  pub event_of-add_all :
      (map : Json) (es : List (String × Json)) (tags event : String)
      → AllDistinct es
      → event_of (add_all map es) tags event ≡ tally tags event (event_of map tags event) es
  unfolding add_all
  event_of-add_all map [] tags event h = refl
  event_of-add_all map ((group, stats) ∷ rest) tags event h =
      event_of-add_all (add_stats J map group stats) rest tags event h.1
      ∙ rw (event_of-add_stats map stats group tags event h.0)
