-- ===== src/Tests/Rates.antt =====
-- Rates and sums.
use mathlib.Core.Option
use pfstrase.Prelude.{
  ◌≡◌, refl, some, [], ◌∷◌, lookup, snprintf_joined, arith, pos, negsuc, some_inj, strstr,
}
use pfstrase.Prelude.Int.{◌+ℤ◌, ◌-ℤ◌}
use pfstrase.Json.Sample.{Value, number, object, array}
use pfstrase.Stats.Rates.{calc_rates, event_rates, rate_key}
use pfstrase.Stats.Rates.Counters.{KeepsSign, event_rates-growth}
use pfstrase.Stats.Rates.Matches.{stats_in, stats_in-calc_rates}
use pfstrase.Stats.Totals.{sum_events, start, derive_entry, cf}
use pfstrase.Stats.Totals.Sums.{add_all, event_of, event_of-add_all}
use pfstrase.Stats.Totals.Derived.{derive_entry-sums}
use pfstrase.Tests.Data.{J, export_entry, earlier_entry}

sample-KeepsSign : KeepsSign J
unfolding ◌-ℤ◌
sample-KeepsSign (pos n) = ground arith
sample-KeepsSign (negsuc n) = ground arith

abbrev new_counters : Value
new_counters = object (("write", number (pos 40)) ∷ ("read", number (pos 9)) ∷ [])

abbrev old_counters : Value
old_counters = object (("write", number (pos 10)) ∷ [])

-- 40 after 10, over one second.
event_rates-growth_example :
    Option.map J.get_double
      (J.object_get_ex (event_rates J new_counters old_counters (pos 1000000)) "write")
    ≡ some (pos 30000000)
unfolding lookup ◌-ℤ◌
event_rates-growth_example =
    event_rates-growth J sample-KeepsSign new_counters old_counters (pos 1000000) "write"
      ((refl, tt), (tt, tt))
      (λ new e. let same : number (pos 40) ≡ new = some_inj e in rw (← same) (ground arith))

stats_in-calc_rates_example :
    stats_in J (
      J.items (
        calc_rates J
          (array [])
          (array (export_entry ∷ []))
          (array (earlier_entry ∷ []))
          (pos 1000000)))
    ≡ some (event_rates J new_counters old_counters (pos 1000000)) ∷ []
unfolding lookup rate_key snprintf_joined
stats_in-calc_rates_example =
    stats_in-calc_rates J (array []) (array (export_entry ∷ [])) (array (earlier_entry ∷ []))
      (pos 1000000)

abbrev of_bob : Value
of_bob = object (("write", number (pos 2)) ∷ ("read", number (pos 1)) ∷ [])

abbrev of_eve : Value
of_eve = object (("write", number (pos 5)) ∷ [])

event_of-add_all_example :
    event_of J
      (add_all J (object []) (("bob", of_bob) ∷ ("eve", of_eve) ∷ ("bob", of_bob) ∷ []))
      "bob"
      "write"
    ≡ some (J.new_double (pos 4000000))
unfolding lookup ◌+ℤ◌
event_of-add_all_example =
    event_of-add_all J (object []) (("bob", of_bob) ∷ ("eve", of_eve) ∷ ("bob", of_bob) ∷ []) "bob"
      "write" (((refl, tt), (tt, tt)), ((tt, tt), (((refl, tt), (tt, tt)), tt)))

-- Requests, byte counts of both directions, a total and a load.
abbrev of_ost : Value
of_ost = object (
    ("write", number (pos 2))
    ∷ ("write_[bytes]", number (pos 4096))
    ∷ ("read", number (pos 1))
    ∷ ("read_[bytes]", number (pos 1024))
    ∷ ("read_bytes", number (pos 7))
    ∷ ("load", number (pos 9))
    ∷ ("write_[usecs]", number (pos 5))
    ∷ [])

derive_entry-sums_example :
    (J.object_get_ex (derive_entry J (sum_events J (start J of_ost) (J.entries of_ost))) "iops"
      ≡ some (J.new_double (J.get_double (number (pos 3)))))
    × (J.object_get_ex (derive_entry J (sum_events J (start J of_ost) (J.entries of_ost))) "bytes"
        ≡ some (J.new_double (J.mul (J.get_double (number (pos 5120))) (cf J))))
unfolding strstr ◌+ℤ◌
derive_entry-sums_example = derive_entry-sums J of_ost
