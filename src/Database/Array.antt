-- ===== src/Database/Array.antt =====
-- What the array of a statement holds between two records, and what is executed of it.
use Prim.Native.String.append
use Prim.Native.String.{◌++◌ as append}
use text.Mathlib.TextLemmas.{append-nil, append_assoc}
use text.Mathlib.TextPositions.{len-append, slice-append_left}
use pfstrase.Prelude.{
  ◌+◌, ◌-◌, ◌≤◌, ◌<◌, ◌≡◌, refl, sym, ap, ◌∙◌, String, false, List, [], ◌∷◌, ◌++◌, len, slice,
  arith, leb, lt→ltb, leb→le, Bool-cases, inl, inr,
}
use pfstrase.Prelude.Slices.{slice-append, slice_whole}
use pfstrase.Buffer.{printed}
use pfstrase.Buffer.Fits.{joined_pieces}
use pfstrase.Database.{
  Query, statement_start, empty_len, query_size, start_query, end_statement, exec_query, add_record,
  put_record, restart,
}

-- The statement of a group of records, as far as it fits the array.
abbrev pub group_text : List String → String
group_text group = append statement_start (joined_pieces group)

abbrev pub statement : List String → String
statement group = end_statement (slice (group_text group) 0 (query_size - 1))

-- All groups put together.
abbrev pub all_records : List (List String) → List String
all_records [] = []
all_records (group ∷ rest) = group ++ all_records rest

-- A record is not empty, and no longer than its array.
abbrev pub IsRecord : String → Type 0
IsRecord r = (1 ≤ len r) × (len r ≤ 8191)

-- The loop of a server over its records.
unfoldable pub add_records : List String → Query → Query
add_records [] q = q
add_records (r ∷ rest) q = add_records rest (add_record r q)

pub joined_pieces-snoc :
    (group : List String) (r : String)
    → joined_pieces (group ++ r ∷ []) ≡ append (joined_pieces group) r
joined_pieces-snoc [] r = append-nil r ∙ sym (append.nil r)
joined_pieces-snoc (x ∷ group) r =
    ap (append x) (joined_pieces-snoc group r) ∙ sym (append_assoc x (joined_pieces group) r)

-- What is in the array, between two records: a group behind the start of the statement.
pub record Holds (executed : List String) (group : List String) (q : Query) : Type 0 where
  pub executed_so_far : q.executed ≡ executed
  pub text : q.buffer.text ≡ slice (group_text group) 0 (query_size - 1)
  pub cur : q.buffer.cur ≡ empty_len + len (joined_pieces group)
  pub fits : empty_len + len (joined_pieces group) ≤ query_size

-- With room for a byte and its zero, the array holds the group whole.
Holds-whole :
    (executed group : List String) (q : Query)
    → Holds executed group q
    → empty_len + len (joined_pieces group) < query_size
    → q.buffer.text ≡ group_text group
Holds-whole executed group q h room =
    h.text
    ∙ slice_whole (group_text group) (query_size - 1)
        (omega (arith, len-append statement_start (joined_pieces group)))

pub put_record-Holds :
    (executed group : List String) (q : Query) (r : String)
    → Holds executed group q
    → 1 ≤ len r
    → empty_len + len (joined_pieces group) + len r ≤ query_size
    → Holds executed (group ++ r ∷ []) (put_record r q)
unfolding printed
put_record-Holds executed group q r h long room =
    let whole = Holds-whole executed group q h (omega arith) in
    let size = len-append (joined_pieces group) r in
    let behind : empty_len + len (joined_pieces group) + (query_size - q.buffer.cur - 1)
        ≡ query_size - 1 =
      omega (arith, h.cur) in
    let end_of_array : len (group_text group) + (query_size - q.buffer.cur - 1) ≡ query_size - 1 =
      omega (arith, behind, len-append statement_start (joined_pieces group)) in
    let regrouped : group_text (group ++ r ∷ []) ≡ append (group_text group) r =
      ap (append statement_start) (joined_pieces-snoc group r)
      ∙ sym (append_assoc statement_start (joined_pieces group) r) in
    let open_end : leb query_size q.buffer.cur ≡ false = ground (arith, h.cur) in
    record {
      executed_so_far = h.executed_so_far;
      text =
          rw (open_end, whole)
            (sym (slice-append (group_text group) r (query_size - q.buffer.cur - 1))
              ∙ ap (slice (append (group_text group) r) 0) end_of_array
              ∙ ap (λ t. slice t 0 (query_size - 1)) (sym regrouped));
      cur = rw (joined_pieces-snoc group r, size) (omega (arith, h.cur));
      fits = rw (joined_pieces-snoc group r, size) (omega arith);
    }

-- The array after a statement was executed, and at the start.
pub start-Holds : (executed : List String) → Holds executed [] (start_query executed)
start-Holds executed = record {
  executed_so_far = refl;
  text = refl;
  cur = refl;
  fits = omega arith;
}

Holds-front :
    (executed group : List String) (q : Query)
    → Holds executed group q
    → q.buffer.text ≡ append statement_start (slice (joined_pieces group) 0 127912)
Holds-front executed group q h = h.text ∙ slice-append statement_start (joined_pieces group) 127912

pub restart-Holds :
    (executed group : List String) (q : Query)
    → Holds executed group q
    → Holds (exec_query q.buffer.text executed) [] (restart q)
restart-Holds executed group q h = record {
  executed_so_far = ap (exec_query q.buffer.text) h.executed_so_far;
  text =
      ap (λ t. slice t 0 empty_len) (Holds-front executed group q h)
      ∙ slice-append_left statement_start (slice (joined_pieces group) 0 127912);
  cur = refl;
  fits = omega arith;
}

-- Some of a group of records is always in the array.
some_of_group :
    (before r : String)
    → IsRecord r
    → len before + len r ≤ 127913
    → 1 ≤ len (slice (append before r) 0 127912)
some_of_group before r (long, short) room =
    let rest = 127912 - len before in
    let exact : len before + rest ≡ 127912 = omega arith in
    let cut : slice (append before r) 0 127912 ≡ append before (slice r 0 rest) =
      ap (slice (append before r) 0) (sym exact) ∙ slice-append before r rest in
    rw (cut, len-append)
      (elim (Bool-cases (leb (len r) rest)) [
        | inl whole ↦ rw (slice_whole r rest (leb→le _ _ whole)) (omega arith)
        | inr split ↦ ground arith
      ])

-- A group that is not empty is executed.
pub exec_query-Holds :
    (executed group : List String) (r : String) (q : Query)
    → Holds executed (group ++ r ∷ []) q
    → IsRecord r
    → exec_query q.buffer.text executed ≡ executed ++ statement (group ++ r ∷ []) ∷ []
unfolding exec_query
exec_query-Holds executed group r q h good =
    let last = joined_pieces-snoc group r in
    let room : len (joined_pieces group) + len r ≤ 127913 =
      omega (arith, h.fits, ap len last, len-append (joined_pieces group) r) in
    let some_text : 1 ≤ len (slice (joined_pieces (group ++ r ∷ [])) 0 127912) =
      rw last (some_of_group (joined_pieces group) r good room) in
    let behind =
      ap len (Holds-front executed (group ++ r ∷ []) q h)
      ∙ len-append statement_start (slice (joined_pieces (group ++ r ∷ [])) 0 127912) in
    rw (lt→ltb empty_len (len q.buffer.text) (omega (arith, behind)))
      (ap (λ t. executed ++ end_statement t ∷ []) h.text)
