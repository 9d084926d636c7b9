-- ===== src/Stats/Totals/Derived.antt =====
-- The sums that derived_events takes over the events of one entry, by the names of the events.
use pfstrase.Prelude.{
  String, Bool, true, false, not, ◌&&◌, ◌||◌, ◌==◌, strstr, ◌≡◌, refl, some, List, [], ◌∷◌, ◌∙◌,
  if◌then◌else◌, is_among,
}
use pfstrase.Json.{JsonC}
use pfstrase.Json.Objects.{object_get_ex-object_add}
use pfstrase.Stats.Totals.{
  skipped, byte_count, cpu_load, request, kind, cf, zero_double, Running, sum_event, sum_events,
  start, derive_entry,
}

-- The totals over the bytes, and what the derived entry has itself.
abbrev pub not_summed : List String
not_summed = "read_bytes" ∷ "write_bytes" ∷ "nclients" ∷ "bytes" ∷ "iops" ∷ []

-- Neither a time in microseconds nor one of those.
abbrev pub is_counted : String → Bool
is_counted event = not (strstr event "[usec") && not (is_among event not_summed)

-- A byte count, as "read_[bytes]".
abbrev pub is_byte_count : String → Bool
is_byte_count event = is_counted event && strstr event "[bytes"

-- Any other event is a request, but for the load.
abbrev pub is_request : String → Bool
is_request event = is_counted event && not (strstr event "[bytes") && not (event == "load")

skips :
    (u a b n y i : Bool)
    → (u || a || b || n || y || i) ≡ not (not u && not (a || (b || (n || (y || (i || false))))))
skips true a b n y i = refl
skips false true b n y i = refl
skips false false true n y i = refl
skips false false false true y i = refl
skips false false false false true i = refl
skips false false false false false true = refl
skips false false false false false false = refl

module _ (J : JsonC) where
  open J use {Double, Json, add, mul, object_get_ex, entries, get_double, new_double}

  -- The sum of the values of the events that a test picks.
  abbrev pub sum_of : (String → Bool) → Double → List (String × Json) → Double
  sum_of picks sum [] = sum
  sum_of picks sum ((event, value) ∷ rest) =
      sum_of picks (if picks event then add sum (get_double value) else sum) rest

  -- What an event adds, by the tests of the code in their order.
  module _ (s : Running J) (event : String) (value : Json) where
    record Adds (counted is_bytes is_load : Bool) (after : Running J) : Type 0 where
      reqs : after.sum_reqs ≡ (
          if counted && not is_bytes && not is_load
          then add s.sum_reqs (get_double value)
          else s.sum_reqs)
      bytes :
          after.sum_bytes
          ≡ (if counted && is_bytes then add s.sum_bytes (get_double value) else s.sum_bytes)

    kind-Adds :
        (skip counted is_bytes is_load : Bool)
        → skip ≡ not counted
        → Adds counted is_bytes is_load (
            sum_event J
              (if skip
                then skipped
                else if is_bytes
                then byte_count
                else if is_load
                then cpu_load
                else request)
              s
              event
              value)
    unfolding sum_event
    kind-Adds true true is_bytes is_load e = cc
    kind-Adds true false is_bytes is_load e = record { reqs = refl; bytes = refl }
    kind-Adds false false is_bytes is_load e = cc
    kind-Adds false true true is_load e = record { reqs = refl; bytes = refl }
    kind-Adds false true false true e = record { reqs = refl; bytes = refl }
    kind-Adds false true false false e = record { reqs = refl; bytes = refl }

    sum_event-Adds :
        Adds
          (is_counted event)
          (strstr event "[bytes")
          (event == "load")
          (sum_event J (kind event) s event value)
    unfolding kind
    sum_event-Adds = kind-Adds _ (is_counted event) (strstr event "[bytes") (event == "load") (
        skips (strstr event "[usec") (event == "read_bytes") (event == "write_bytes")
          (event == "nclients") (event == "bytes") (event == "iops"))

  reqs-sum_events :
      (s : Running J) (es : List (String × Json))
      → (sum_events J s es).sum_reqs ≡ sum_of is_request s.sum_reqs es
  unfolding sum_events
  reqs-sum_events s [] = refl
  reqs-sum_events s ((event, value) ∷ rest) =
      reqs-sum_events (sum_event J (kind event) s event value) rest
      ∙ rw ((sum_event-Adds s event value).reqs)

  bytes-sum_events :
      (s : Running J) (es : List (String × Json))
      → (sum_events J s es).sum_bytes ≡ sum_of is_byte_count s.sum_bytes es
  unfolding sum_events
  bytes-sum_events s [] = refl
  bytes-sum_events s ((event, value) ∷ rest) =
      bytes-sum_events (sum_event J (kind event) s event value) rest
      ∙ rw ((sum_event-Adds s event value).bytes)

  -- The derived entry shows as iops the sum of its events that are requests, and as bytes the sum of
  -- its byte counts, whose names have "[bytes", in MiB. Neither sum counts the times, the totals
  -- read_bytes and write_bytes, the number of clients or what an earlier derivation has left; a
  -- request is neither a byte count nor the load.
  pub derive_entry-sums :
      (tag_entry : Json)
      → (object_get_ex
            (derive_entry J (sum_events J (start J tag_entry) (entries tag_entry)))
            "iops"
          ≡ some (new_double (sum_of is_request (zero_double J) (entries tag_entry))))
        × (object_get_ex
              (derive_entry J (sum_events J (start J tag_entry) (entries tag_entry)))
              "bytes"
            ≡ some (
                new_double (mul (sum_of is_byte_count (zero_double J) (entries tag_entry)) (cf J))))
  unfolding derive_entry
  derive_entry-sums tag_entry = (
    simp (object_get_ex-object_add, reqs-sum_events),
    simp (object_get_ex-object_add, bytes-sum_events),
  )
