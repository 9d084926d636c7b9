-- ===== src/Stats/Group/Both.antt =====
-- The time and the data of a report are kept together.
use mathlib.Core.Path.{subst}
use pfstrase.Prelude.{
  ◌≡◌, ap, Option, none, some, >>=-eq-some, some_inj, Option-cases, Bool-cases, inl, inr, pos,
}
use pfstrase.Json.{JsonC}
use pfstrase.Json.Objects.{object_get_ex-object_add}
use pfstrase.Stats.Totals.{zero_double}
use pfstrase.Stats.Group.{
  Outcome, host_tag_map, keep_report, with_rates, update_rates, update_report, group_host,
}
use pfstrase.Stats.Group.Updates.{keep_report-Keeps}

module _ (J : JsonC) where
  open J use {Double, of_ℤ, sub, div, le, Json, object_add, object_get_ex, get_double}

  -- Where an entry keeps the time of a report, it keeps its data.
  abbrev pub KeepsBoth : Json → Type 0
  KeepsBoth entry =
      (otime : Json)
      → object_get_ex entry "otime" ≡ some otime
      → (oda : Json) × (object_get_ex entry "odata" ≡ some oda)

  keep_report-KeepsBoth : (e ntime nda : Json) → KeepsBoth (keep_report J e ntime nda)
  keep_report-KeepsBoth e ntime nda otime _ = (nda, (keep_report-Keeps J e ntime nda).1)

  of_outcome :
      (entry : Json) (tag_map : Option Json) (outcome : Outcome J)
      → KeepsBoth entry
      → ◌≡◌ {A = Option (Outcome J)} (some (entry, tag_map)) (some outcome)
      → KeepsBoth outcome.0
  of_outcome entry tag_map outcome both same =
      subst KeepsBoth (ap (λ (o : Outcome J). o.0) (some_inj same)) both

  update_rates-KeepsBoth :
      (tags e ntime nda : Json) (idt : Double) (outcome : Outcome J)
      → update_rates J tags e ntime nda idt ≡ some outcome
      → KeepsBoth outcome.0
  unfolding update_rates
  update_rates-KeepsBoth tags e ntime nda idt outcome done =
      elim (Option-cases (object_get_ex e "odata")) [
        | inl first ↦
            of_outcome (object_add e "odata" nda) none outcome
              (λ otime _. (nda, simp object_get_ex-object_add)) (rw (first, update_rates) at done)
        | inr (oda, old) ↦
            let next = keep_report J (with_rates J e nda oda idt) ntime nda in
            let (groups, ran, last) =
              >>=-eq-some {B = Outcome J} (host_tag_map J tags next ntime)
                (λ g. some (next, some g)) (rw (old, update_rates) at done) in
            of_outcome next (some groups) outcome
              (keep_report-KeepsBoth (with_rates J e nda oda idt) ntime nda) last
      ]

  update_report-KeepsBoth :
      (tags e ntime nda : Json) (outcome : Outcome J)
      → KeepsBoth e
      → update_report J tags e ntime nda ≡ some outcome
      → KeepsBoth outcome.0
  unfolding update_report
  update_report-KeepsBoth tags e ntime nda outcome both done =
      elim (Option-cases (object_get_ex e "otime")) [
        | inl first ↦
            of_outcome (keep_report J e ntime nda) none outcome (keep_report-KeepsBoth e ntime nda)
              (rw (first, update_report) at done)
        | inr (otime, old) ↦
            let dt = sub (get_double ntime) (get_double otime) in
            elim (Bool-cases (le dt (zero_double J))) [
              | inl stale ↦ of_outcome e none outcome both (rw (old, update_report, stale) at done)
              | inr later ↦
                  update_rates-KeepsBoth tags e ntime nda (div (of_ℤ (pos 1)) dt) outcome
                    (rw (old, update_report, later) at done)
            ]
      ]

  -- A round of the grouping goes on to keep both.
  pub group_host-KeepsBoth :
      (tags e : Json) (outcome : Outcome J)
      → KeepsBoth e
      → group_host J tags e ≡ some outcome
      → KeepsBoth outcome.0
  unfolding group_host
  group_host-KeepsBoth tags e outcome both done = elim (Option-cases (object_get_ex e "time")) [
    | inl no_time ↦ of_outcome e none outcome both (rw (no_time, group_host) at done)
    | inr (ntime, time) ↦ elim (Option-cases (object_get_ex e "data")) [
      | inl no_data ↦ of_outcome e none outcome both (rw (time, group_host, no_data) at done)
      | inr (nda, there) ↦
          update_report-KeepsBoth tags e ntime nda outcome both
            (rw (time, group_host, there) at done)
    ]
  ]
