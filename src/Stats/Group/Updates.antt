-- ===== src/Stats/Group/Updates.antt =====
-- When a round of group_statsbytags takes new rates of a host, and what it keeps of the report.
use pfstrase.Prelude.{
  Bool, true, false, ◌≡◌, Option, none, some, >>=-eq-some, some_inj, sym, ap, pos, Option-cases,
  Bool-cases, inl, inr,
}
use pfstrase.Json.{JsonC}
use pfstrase.Json.Objects.{object_get_ex-object_add}
use pfstrase.Stats.Totals.{zero_double}
use pfstrase.Stats.Group.Published.{Summed, host_tag_map-Summed, time-Summed}
use pfstrase.Stats.Rates.{calc_rates}
use pfstrase.Stats.Rates.Matches.{stats_in, all_expected, stats_in-calc_rates}
use pfstrase.Prelude.{[], ◌++◌, ◌∙◌}
use pfstrase.Stats.Group.{
  host_tag_map, keep_report, with_rates, update_rates, update_report, group_host,
}

module _ (J : JsonC) where
  open J use {
    Double, of_ℤ, sub, div, le, Json, object_add, object_get_ex, get_double, items, new_array,
  }

  -- The report of the entry is kept as the old one.
  abbrev pub Keeps : Json → Json → Json → Type 0
  Keeps updated ntime nda =
      (object_get_ex updated "otime" ≡ some ntime) × (object_get_ex updated "odata" ≡ some nda)

  -- A map of groups that sums up the rates of the report against the old one, as an interval's
  -- inverse gives them, and carries the time of the report.
  pub record Published (ntime nda oda : Json) (idt : Double) (updated : Json)
      (tag_map : Option Json) : Type 0 where
    pub rates : Json
    pub groups : Json
    pub taken : object_get_ex updated "rates" ≡ some rates
    pub expected : stats_in J (items rates) ≡ all_expected J (items oda) idt (items nda)
    pub made : tag_map ≡ some groups
    pub summed : Summed J updated rates ntime groups
    pub time : object_get_ex groups "time" ≡ some ntime

  -- What a round does with a report, by whether it is taken after the one that is kept.
  abbrev pub Later : Bool → Json → Json → Json → Double → Json → Option Json → Type 0
  Later true host_entry ntime nda dt updated tag_map = (updated ≡ host_entry) × (tag_map ≡ none)
  Later false host_entry ntime nda dt updated tag_map =
      Keeps updated ntime nda
      × ((oda : Json) × (object_get_ex host_entry "odata" ≡ some oda)
          × Published ntime nda oda (div (of_ℤ (pos 1)) dt) updated tag_map)

  -- What it does, by the time of the report that is kept.
  abbrev pub Round : Option Json → Json → Json → Json → Json → Option Json → Type 0
  Round none host_entry ntime nda updated tag_map = Keeps updated ntime nda × (tag_map ≡ none)
  Round (some otime) host_entry ntime nda updated tag_map =
      let dt = sub (get_double ntime) (get_double otime) in
      Later (le dt (zero_double J)) host_entry ntime nda dt updated tag_map

  pub keep_report-Keeps : (e ntime nda : Json) → Keeps (keep_report J e ntime nda) ntime nda
  unfolding keep_report
  keep_report-Keeps e ntime nda = (simp object_get_ex-object_add, simp object_get_ex-object_add)

  pair_inj :
      {a b : Json} {o p : Option Json}
      → ◌≡◌ {A = Option (Json × Option Json)} (some (a, o)) (some (b, p))
      → (a ≡ b) × (o ≡ p)
  pair_inj e = (ap (λ q. q.0) (some_inj e), ap (λ q. q.1) (some_inj e))

  update_rates-Later :
      (group_tags e ntime nda oda : Json) (idt : Double) (updated : Json) (tag_map : Option Json)
      → object_get_ex e "odata" ≡ some oda
      → update_rates J group_tags e ntime nda idt ≡ some (updated, tag_map)
      → Keeps updated ntime nda × Published ntime nda oda idt updated tag_map
  unfolding update_rates with_rates keep_report
  update_rates-Later group_tags e ntime nda oda idt updated tag_map old done =
      let next = keep_report J (with_rates J e nda oda idt) ntime nda in
      let rates = calc_rates J new_array nda oda idt in
      let taken : object_get_ex next "rates" ≡ some rates = simp object_get_ex-object_add in
      let none_before : stats_in J (items new_array) ≡ [] = ap (stats_in J) J.items-new_array in
      let (groups, ran, last) =
        >>=-eq-some (host_tag_map J group_tags next ntime) (λ g. some (next, some g))
          (rw (old, update_rates) at done) in
      let (same, made) = pair_inj last in
      let summed = host_tag_map-Summed J group_tags next rates ntime groups taken ran in
      rw (← same) (
        keep_report-Keeps (with_rates J e nda oda idt) ntime nda,
        record {
          rates = rates;
          groups = groups;
          taken = taken;
          expected =
              stats_in-calc_rates J new_array nda oda idt
              ∙ ap (λ l. l ++ all_expected J (items oda) idt (items nda)) none_before;
          made = sym made;
          summed = summed;
          time = time-Summed J next rates ntime groups summed;
        },
      )

  -- A host with a report and none kept keeps this one and publishes nothing. With one kept, a
  -- report that is not later changes nothing; a later one replaces it, and the groups that
  -- are published sum up its rates against the one that was kept, and carry its time. Where the time of a report is kept, its data are too,
  -- and the tags that are printed are no broken formats.
  pub group_host-Round :
      (group_tags host_entry ntime nda updated : Json) (tag_map : Option Json)
      → object_get_ex host_entry "time" ≡ some ntime
      → object_get_ex host_entry "data" ≡ some nda
      → ((otime : Json)
          → object_get_ex host_entry "otime" ≡ some otime
          → (oda : Json) × (object_get_ex host_entry "odata" ≡ some oda))
      → group_host J group_tags host_entry ≡ some (updated, tag_map)
      → Round (object_get_ex host_entry "otime") host_entry ntime nda updated tag_map
  unfolding group_host update_report
  group_host-Round group_tags host_entry ntime nda updated tag_map time here both done =
      elim (Option-cases (object_get_ex host_entry "otime")) [
        | inl first ↦
            let (same, quiet) =
              pair_inj (rw (time, group_host, here, update_report, first) at done) in
            rw (first, ← same) (keep_report-Keeps host_entry ntime nda, sym quiet)
        | inr (otime, old) ↦
            let dt = sub (get_double ntime) (get_double otime) in
            elim (Bool-cases (le dt (zero_double J))) [
              | inl stale ↦
                  let (same, quiet) =
                    pair_inj (rw (time, group_host, here, update_report, old, stale) at done) in
                  rw (old, stale) (sym same, sym quiet)
              | inr later ↦
                  let (oda, kept) = both otime old in
                  let (keeps, published) =
                    update_rates-Later group_tags host_entry ntime nda oda (div (of_ℤ (pos 1)) dt)
                      updated tag_map kept
                      (rw (time, group_host, here, update_report, old, later) at done) in
                  rw (old, later) (keeps, (oda, kept, published))
            ]
      ]
