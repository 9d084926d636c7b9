-- ===== src/Stats/Rates/Counters.antt =====
-- The rate of one event, from two readings of its counter.
use mathlib.Core.Option
use pfstrase.Prelude.{
  String, Bool, true, false, ◌≡◌, refl, Option, none, some, ℤ, pos, negsuc, ◌^◌, ◌-◌, DistinctKeys,
  arith, Option-cases, inl, inr, if◌then◌else◌,
}
use pfstrase.Prelude.Int.{◌-ℤ◌, ◌≤ℤ◌, ltb_ℤ, wrap64, wrap64-fits}
use pfstrase.Json.{JsonC}
use pfstrase.Json.Objects.{object_get_ex-foreach_add, object_get_ex-new_object}
use pfstrase.Stats.Rates.{delta, event_rates}

module _ (J : JsonC) where
  open J use {
    Double, of_ℤ, mul, lt, Json, object_get_ex, entries, get_int64, new_double, get_double,
  }

  -- The conversion of an integer to double keeps its sign.
  abbrev pub KeepsSign : Type 0
  KeepsSign = (a : ℤ) → lt (of_ℤ a) (of_ℤ (pos 0)) ≡ ltb_ℤ a (pos 0)

  -- The growth of a counter between two readings: none if it is new, or fell.
  abbrev pub growth : ℤ → Option ℤ → ℤ
  growth new none = pos 0
  growth new (some old) = if ltb_ℤ new old then pos 0 else new -ℤ old

  abbrev pub readings : Option Json → Option ℤ
  readings none = none
  readings (some v) = some (get_int64 v)

  -- The difference of the readings is an int64_t.
  abbrev pub Fits : ℤ → Option ℤ → Type 0
  Fits new none = Unit {0}
  Fits new (some old) = (negsuc (2 ^ 63 - 1) ≤ℤ (new -ℤ old)) × ((new -ℤ old) ≤ℤ pos (2 ^ 63 - 1))

  falls_iff : (a b : ℤ) → ltb_ℤ (a -ℤ b) (pos 0) ≡ ltb_ℤ a b
  unfolding ◌-ℤ◌
  falls_iff a b = ground arith

  if-of : (b : Bool) (a : ℤ) → (if b then of_ℤ (pos 0) else of_ℤ a) ≡ of_ℤ (if b then pos 0 else a)
  if-of true a = refl
  if-of false a = refl

  delta-some :
      (new old : Json)
      → delta J new (some old) ≡ (
          if lt (of_ℤ (wrap64 (get_int64 new -ℤ get_int64 old))) (of_ℤ (pos 0))
          then of_ℤ (pos 0)
          else of_ℤ (wrap64 (get_int64 new -ℤ get_int64 old)))
  unfolding delta
  delta-some new old = refl

  delta-growth :
      (sign : KeepsSign) (new : Json) (old : Option Json)
      → Fits (get_int64 new) (readings old)
      → delta J new old ≡ of_ℤ (growth (get_int64 new) (readings old))
  unfolding delta
  delta-growth sign new none fits = rw (sign (pos 0), delta)
  delta-growth sign new (some old) fits =
      let a = get_int64 new in
      let b = get_int64 old in
      rw (delta-some new old, wrap64-fits (a -ℤ b) fits.0 fits.1, sign (a -ℤ b), falls_iff a b)
        (if-of (ltb_ℤ a b) (a -ℤ b))

  -- The rate of an event is its growth since the old reading times the inverse of the time
  -- between them; an event that the old reading lacks, or whose counter fell, has the rate of no
  -- growth. The events of an entry are those of the new reading. The readings are 64-bit
  -- counters whose difference fits, and converting an integer to double keeps its sign.
  pub event_rates-growth :
      (sign : KeepsSign) (nstats ostats : Json) (idt : Double) (event : String)
      → DistinctKeys (entries nstats)
      → ((new : Json)
          → object_get_ex nstats event ≡ some new
          → Fits (get_int64 new) (readings (object_get_ex ostats event)))
      → Option.map get_double (object_get_ex (event_rates J nstats ostats idt) event)
        ≡ Option.map
            (λ new. mul (of_ℤ (growth (get_int64 new) (readings (object_get_ex ostats event)))) idt)
            (object_get_ex nstats event)
  unfolding event_rates
  event_rates-growth sign nstats ostats idt event distinct fits =
      let rate = λ (name : String) (new : Json) (old : Option Json).
        new_double (mul (delta J new (object_get_ex ostats name)) idt) in
      rw
        (
          object_get_ex-foreach_add J rate J.new_object (entries nstats) event distinct,
          ← J.object_get_ex-entries nstats event,
        )
        (elim (Option-cases (object_get_ex nstats event)) [
          | inl e ↦ rw (e, object_get_ex-new_object)
          | inr (new, e) ↦ rw (e, J.get_double-new_double, delta-growth sign new _ (fits new e))
        ])
