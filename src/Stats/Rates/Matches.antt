-- ===== src/Stats/Rates/Matches.antt =====
-- Which entries of a report get a rate: those with a counterpart in the report before.
use mathlib.Core.List.{append-nil, append_assoc, map-append}
use pfstrase.Prelude.{
  String, ◌≡◌, refl, Option, none, some, List, [], ◌∷◌, ◌++◌, map, ◌==◌, or_else, some_inj, ◌∙◌,
  arith, Option-cases, Bool-cases, inl, inr, if◌then◌else◌, ◌>>=◌,
}
use pfstrase.Json.{JsonC}
use pfstrase.Json.Objects.{
  object_get_ex-object_add, object_get_ex-new_object, object_get_ex-copy_tag,
}
use pfstrase.Stats.Rates.{
  is_cpu, rate_key, add_old, old_map, event_rates, rate_tags, rate_of, new_rates, calc_rates, kept,
  array_add_some,
}

module _ (J : JsonC) where
  open J use {Json, Double, object_get_ex, object_add, new_object, items, new_array, array_add}

  abbrev keyed : Json → Option Json → Option Json → Option (String × Json)
  keyed entry (some stats_type) (some stats) = do k ← rate_key J entry stats_type; some (k, stats)
  keyed entry _ _ = none

  -- The key and the counters of an entry that has both.
  abbrev pub counters : Json → Option (String × Json)
  counters entry = keyed entry (object_get_ex entry "stats_type") (object_get_ex entry "stats")

  abbrev under : String → Option (String × Json) → Option Json
  under key none = none
  under key (some (k, stats)) = if k == key then some stats else none

  -- The counters of the last entry with a key.
  abbrev pub latest : String → List Json → Option Json
  latest key [] = none
  latest key (entry ∷ rest) = or_else (latest key rest) (under key (counters entry))

  object_get_ex-kept :
      (omap entry : Json) (key : String)
      → object_get_ex (kept J omap (add_old J omap entry)) key
        ≡ or_else (under key (counters entry)) (object_get_ex omap key)
  unfolding add_old
  object_get_ex-kept omap entry key = elim (Option-cases (object_get_ex entry "stats_type")) [
    | inl e ↦ rw (e, add_old)
    | inr (t, e) ↦ elim (Option-cases (object_get_ex entry "stats")) [
      | inl e' ↦ rw (e, e', add_old)
      | inr (stats, e') ↦ elim (Option-cases (rate_key J entry t)) [
        | inl e'' ↦ rw (e, e', e'', add_old)
        | inr (k, e'') ↦ rw (e, e', e'', add_old, object_get_ex-object_add) (ground arith)
      ]
    ]
  ]

  or_else_assoc : (a b c : Option Json) → or_else a (or_else b c) ≡ or_else (or_else a b) c
  or_else_assoc none b c = refl
  or_else_assoc (some x) b c = refl

  -- The map of the old values holds for each key the counters of the last old entry with it.
  pub object_get_ex-old_map :
      (omap : Json) (old : List Json) (key : String)
      → object_get_ex (old_map J omap old) key ≡ or_else (latest key old) (object_get_ex omap key)
  unfolding old_map
  object_get_ex-old_map omap [] key = refl
  object_get_ex-old_map omap (entry ∷ rest) key =
      rw
        (
          object_get_ex-old_map (kept J omap (add_old J omap entry)) rest key,
          object_get_ex-kept omap entry key,
        )
        (or_else_assoc (latest key rest) _ _)

  abbrev paired : List Json → Double → Option (String × Json) → Option Json
  paired old idt none = none
  paired old idt (some (key, nstats)) = do
    ostats ← latest key old
    some (event_rates J nstats ostats idt)

  -- The rates of an entry against an old report, if it has a counterpart there.
  abbrev pub expected : List Json → Double → Json → Option Json
  expected old idt entry = paired old idt (counters entry)

  abbrev cons_some : Option Json → List (Option Json) → List (Option Json)
  cons_some none l = l
  cons_some (some x) l = some x ∷ l

  -- The rates of all entries that have a counterpart, in the order of the entries.
  abbrev pub all_expected : List Json → Double → List Json → List (Option Json)
  all_expected old idt [] = []
  all_expected old idt (entry ∷ rest) =
      cons_some (expected old idt entry) (all_expected old idt rest)

  abbrev pub stats_of : Option Json → Option (Option Json)
  stats_of none = none
  stats_of (some rate) = some (object_get_ex rate "stats")

  stats-rate_tags :
      (entry t rate : Json)
      → object_get_ex (rate_tags J entry t rate) "stats" ≡ object_get_ex rate "stats"
  unfolding rate_tags
  stats-rate_tags entry t rate = elim (Bool-cases (is_cpu J t)) [
    | inl e ↦ rw (e, rate_tags) (simp object_get_ex-copy_tag)
    | inr e ↦ rw (e, rate_tags) (simp object_get_ex-copy_tag)
  ]

  abbrev wrap_some : Option Json → Option (Option Json)
  wrap_some none = none
  wrap_some (some x) = some (some x)

  rate_of-expected :
      (old : List Json) (idt : Double) (entry : Json)
      → stats_of (rate_of J (old_map J new_object old) idt entry)
        ≡ wrap_some (expected old idt entry)
  unfolding rate_of
  rate_of-expected old idt entry = elim (Option-cases (object_get_ex entry "stats_type")) [
    | inl e ↦ rw (e, rate_of)
    | inr (t, e) ↦ elim (Option-cases (rate_key J entry t)) [
      | inl k ↦ elim (Option-cases (object_get_ex entry "stats")) [
        | inl s ↦ rw (e, k, s, rate_of)
        | inr (nstats, s) ↦ rw (e, k, s, rate_of) (rw k)
      ]
      | inr (key, k) ↦
          let found : object_get_ex (old_map J new_object old) key ≡ or_else (latest key old) none =
            rw (object_get_ex-old_map, object_get_ex-new_object) in
          elim (Option-cases (latest key old)) [
            | inl o ↦ elim (Option-cases (object_get_ex entry "stats")) [
              | inl s ↦ rw (e, k, s, rate_of, found, o)
              | inr (nstats, s) ↦ rw (e, k, s, rate_of, found, o) (rw (k, o))
            ]
            | inr (ostats, o) ↦ elim (Option-cases (object_get_ex entry "stats")) [
              | inl s ↦ rw (e, k, s, rate_of, found, o)
              | inr (nstats, s) ↦
                  rw (e, k, s, rate_of, found, o)
                    (rw (k, o, stats-rate_tags) (simp object_get_ex-object_add))
            ]
          ]
    ]
  ]

  abbrev pub stats_in : List Json → List (Option Json)
  stats_in = map (λ rate. object_get_ex rate "stats")

  stats_in-add :
      (rates : Json) (r x : Option Json) (l : List (Option Json))
      → stats_of r ≡ wrap_some x
      → stats_in (items (array_add_some J rates r)) ++ l ≡ stats_in (items rates) ++ cons_some x l
  stats_in-add rates none none l e = refl
  stats_in-add rates none (some x) l e = cc
  stats_in-add rates (some r) none l e = cc
  stats_in-add rates (some r) (some x) l e =
      simp (J.items-array_add, map-append, append_assoc, some_inj e)

  stats_in-new_rates :
      (old : List Json) (idt : Double) (rates : Json) (new : List Json)
      → stats_in (items (new_rates J (old_map J new_object old) idt rates new))
        ≡ stats_in (items rates) ++ all_expected old idt new
  unfolding new_rates
  stats_in-new_rates old idt rates [] = rw append-nil
  stats_in-new_rates old idt rates (entry ∷ rest) =
      stats_in-new_rates old idt
        (array_add_some J rates (rate_of J (old_map J new_object old) idt entry)) rest
      ∙ stats_in-add rates _ _ (all_expected old idt rest) (rate_of-expected old idt entry)

  -- The rates that calc_rates adds to an array are those of the new entries that have counters and
  -- a counterpart in the old report, in their order, each taken against the last old entry
  -- with the same key.
  pub stats_in-calc_rates :
      (rate_array nda oda : Json) (idt : Double)
      → stats_in (items (calc_rates J rate_array nda oda idt))
        ≡ stats_in (items rate_array) ++ all_expected (items oda) idt (items nda)
  unfolding calc_rates
  stats_in-calc_rates rate_array nda oda idt =
      stats_in-new_rates (items oda) idt rate_array (items nda)
