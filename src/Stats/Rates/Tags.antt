-- ===== src/Stats/Rates/Tags.antt =====
-- What a rate takes over from its entry, and where the rates come from.
use pfstrase.Prelude.{
  or_else, String, ◌≡◌, refl, sym, ap, ◌∙◌, true, false, Option, none, some, List, [], ◌∷◌, All,
  All-append, arith, Bool-cases, inl, inr, ◌>>=◌, >>=-eq-some, some_inj, Option-cases, ◌⊎◌,
}
use mathlib.Core.Path.{subst}
use pfstrase.Json.{JsonC}
use pfstrase.Json.Objects.{
  object_get_ex-object_add, object_get_ex-new_object, object_get_ex-copy_tag,
}
use pfstrase.Stats.Rates.{
  is_cpu, rate_key, rate_tags, rate_of, new_rates, calc_rates, old_map, event_rates,
}

module _ (J : JsonC) where
  open J use {Json, Double, object_get_ex, object_add, new_object, items, new_array, array_add}

  -- The tags of a rate that is not of the processors.
  abbrev pub export_tags : List String
  export_tags = "client_nid" ∷ "client" ∷ "system" ∷ "jid" ∷ "uid" ∷ "fid" ∷ []

  -- A rate has the type and the server of its entry, and, unless it is of the processors, the
  -- client, the job, the user and the file system.
  pub record IsRateOf (entry rate : Json) : Type 0 where
    pub stats : (s : Json) × (object_get_ex rate "stats" ≡ some s)
    pub stats_type :
        (t : Json) × (object_get_ex entry "stats_type" ≡ some t)
        × (object_get_ex rate "stats_type" ≡ some t)
        × (is_cpu J t ≡ false → All (λ f. object_get_ex rate f ≡ object_get_ex entry f) export_tags)
    pub no_client :
        (t : Json)
        → object_get_ex entry "stats_type" ≡ some t
        → is_cpu J t ≡ true
        → object_get_ex rate "client_nid" ≡ none
    pub server : object_get_ex rate "server" ≡ object_get_ex entry "server"

  -- The objects that hold the stats of a rate and its type.
  abbrev bare : Json → Json → Json
  bare stats stats_type = object_add (object_add new_object "stats" stats) "stats_type" stats_type

  or_else-none : (o : Option Json) → or_else o none ≡ o
  or_else-none none = refl
  or_else-none (some v) = refl

  -- What an object holds that was put together by writes and copies.
  ruleset reads =
      (object_get_ex-copy_tag, object_get_ex-object_add, object_get_ex-new_object, or_else-none)

  rate_tags-IsRateOf :
      (entry t stats : Json)
      → object_get_ex entry "stats_type" ≡ some t
      → IsRateOf entry (rate_tags J entry t (bare stats t))
  unfolding rate_tags
  rate_tags-IsRateOf entry t stats typed = elim (Bool-cases (is_cpu J t)) [
    | inl cpu ↦
        rw (cpu, rate_tags)
          (record {
            stats = (stats, simp reads);
            stats_type = (t, typed, simp reads, λ export. ground (arith, cpu, export));
            no_client = λ t' typed' cpu'. simp reads;
            server = simp reads;
          })
    | inr export ↦
        rw (export, rate_tags)
          (record {
            stats = (stats, simp reads);
            stats_type = (
              t,
              typed,
              simp reads,
              λ _. (
                simp reads,
                (simp reads, (simp reads, (simp reads, (simp reads, (simp reads, tt))))),
              ),
            );
            no_client = λ t' typed' cpu'.
                let same : t ≡ t' = some_inj (sym typed ∙ typed') in
                ground (arith, export, cpu', ap (is_cpu J) same);
            server = simp reads;
          })
  ]

  -- A rate that is made has an entry of the report behind it.
  rate_of-IsRateOf :
      (omap : Json) (idt : Double) (entry rate : Json)
      → rate_of J omap idt entry ≡ some rate
      → IsRateOf entry rate
  unfolding rate_of
  rate_of-IsRateOf omap idt entry rate done =
      let (t, typed, more) =
        >>=-eq-some {B = Json} (object_get_ex entry "stats_type")
          (λ t. rate_key J entry t >>= λ key. object_get_ex omap key >>= λ ostats.
            object_get_ex entry "stats" >>= λ nstats.
            some (rate_tags J entry t (bare (event_rates J nstats ostats idt) t)))
          done in
      let (key, keyed, more') =
        >>=-eq-some {B = Json} (rate_key J entry t)
          (λ key. object_get_ex omap key >>= λ ostats. object_get_ex entry "stats" >>= λ nstats.
            some (rate_tags J entry t (bare (event_rates J nstats ostats idt) t)))
          more in
      let (ostats, old, more'') =
        >>=-eq-some {B = Json} (object_get_ex omap key)
          (λ ostats. object_get_ex entry "stats" >>= λ nstats.
            some (rate_tags J entry t (bare (event_rates J nstats ostats idt) t)))
          more' in
      let (nstats, new, last) =
        >>=-eq-some {B = Json} (object_get_ex entry "stats")
          (λ nstats. some (rate_tags J entry t (bare (event_rates J nstats ostats idt) t)))
          more'' in
      subst (IsRateOf entry) (some_inj last)
        (rate_tags-IsRateOf entry t (event_rates J nstats ostats idt) typed)

  -- A rate is that of some entry of a report.
  abbrev pub IsRateIn : List Json → Json → Type 0
  IsRateIn [] rate = ⊥
  IsRateIn (entry ∷ rest) rate = IsRateOf entry rate ⊎ IsRateIn rest rate

  new_rates-IsRateIn :
      (P : Json → Type 0) (omap : Json) (idt : Double) (rates : Json) (es : List Json)
      → ((rate : Json) → IsRateIn es rate → P rate)
      → All P (items rates)
      → All P (items (new_rates J omap idt rates es))
  unfolding new_rates
  new_rates-IsRateIn P omap idt rates [] good h = h
  new_rates-IsRateIn P omap idt rates (entry ∷ es) good h =
      elim (Option-cases (rate_of J omap idt entry)) [
        | inl skipped ↦
            rw skipped
              (new_rates-IsRateIn P omap idt rates es (λ rate of_rest. good rate (inr of_rest)) h)
        | inr (rate, made) ↦
            let own = good rate (inl (rate_of-IsRateOf omap idt entry rate made)) in
            rw made (
              new_rates-IsRateIn P omap idt (array_add rates rate) es
                (λ r of_rest. good r (inr of_rest))
                (rw J.items-array_add (All-append P (items rates) (rate ∷ []) h (own, tt))))
      ]

  -- calc_rates fills a new array with rates each of which belongs to an entry of the new report: it
  -- has counters, the type and the server of that entry, and, if it is not of the processors, its
  -- client, job, user and file system.
  pub calc_rates-IsRateIn :
      (nda oda : Json) (idt : Double)
      → All (IsRateIn (items nda)) (items (calc_rates J new_array nda oda idt))
  unfolding calc_rates
  calc_rates-IsRateIn nda oda idt =
      new_rates-IsRateIn (IsRateIn (items nda)) (old_map J new_object (items oda)) idt new_array
        (items nda) (λ rate h. h) (rw J.items-new_array tt)
