-- ===== src/Database/Batches.antt =====
-- Every record is in one statement that is executed, and the statements are in their order.
use mathlib.Core.List.{append-nil as append-nil_list, append_assoc as append_assoc_list, map-append}
use mathlib.Core.Path.{subst}
use pfstrase.Prelude.{
  ◌+◌, ◌≤◌, ◌≡◌, refl, sym, ap, ◌∙◌, String, true, false, List, [], ◌∷◌, ◌++◌, map, All, All-append,
  len, slice, arith, ltb, Bool-cases, inl, inr, ◌⊎◌,
}
use pfstrase.Buffer.Fits.{joined_pieces}
use pfstrase.Database.Array.{
  group_text, statement, all_records, IsRecord, add_records, Holds, put_record-Holds, start-Holds,
  restart-Holds, exec_query-Holds,
}
use pfstrase.Database.{
  Query, statement_start, empty_len, query_size, start_query, exec_query, add_record, put_record,
  restart,
}

abbrev EndsInRecord : List String → Type 0
EndsInRecord group =
    (group ≡ []) ⊎ ((before : List String) × (r : String) × (group ≡ before ++ r ∷ []) × IsRecord r)

-- A group that the array holds but for its zero, at most.
abbrev pub Fits : List String → Type 0
Fits group = empty_len + len (joined_pieces group) ≤ query_size

-- The statements that come of a group and of records behind it.
abbrev pub Grouped : List String → List String → List String → Type 0
Grouped executed records after =
    (groups : List (List String)) × (all_records groups ≡ records)
    × (after ≡ executed ++ map statement groups)
    × All Fits groups

pub all_records-append :
    (gs hs : List (List String)) → all_records (gs ++ hs) ≡ all_records gs ++ all_records hs
all_records-append [] hs = refl
all_records-append (g ∷ gs) hs =
    ap (◌++◌ g) (all_records-append gs hs)
    ∙ sym (append_assoc_list g (all_records gs) (all_records hs))

exec_query-Grouped :
    (executed group : List String) (q : Query)
    → Holds executed group q
    → EndsInRecord group
    → Grouped executed group (exec_query q.buffer.text executed)
unfolding exec_query
exec_query-Grouped executed group q h (inl empty) =
    let start : q.buffer.text ≡ statement_start =
      h.text ∙ ap (λ g. slice (group_text g) 0 127999) empty in
    ([], sym empty, rw start (sym (append-nil_list executed)), tt)
exec_query-Grouped executed group q h (inr (before, r, ends, good)) =
    let h' : Holds executed (before ++ r ∷ []) q = rw (← ends) h in
    (
      group ∷ [],
      append-nil_list group,
      rw ends (exec_query-Holds executed before r q h' good),
      (h.fits, tt),
    )

pub Grouped-append :
    (executed first second middle after : List String)
    → Grouped executed first middle
    → Grouped middle second after
    → Grouped executed (first ++ second) after
Grouped-append executed first second middle after (gs, records, made, fit)
      (hs, records', made', fit') =
    (
      gs ++ hs,
      all_records-append gs hs ∙ rw (records, records'),
      made' ∙ rw (made, map-append, append_assoc_list),
      All-append Fits gs hs fit fit',
    )

add_record-room :
    (r : String) (q : Query)
    → ltb query_size (q.buffer.cur + len r) ≡ false
    → add_record r q ≡ put_record r q
unfolding add_record
add_record-room r q room = rw room

add_record-full :
    (r : String) (q : Query)
    → ltb query_size (q.buffer.cur + len r) ≡ true
    → add_record r q ≡ put_record r (restart q)
unfolding add_record
add_record-full r q full = rw full

-- What the loop and the end of a server execute, from a statement on.
abbrev pub outcome : List String → Query → List String
outcome records q = exec_query (add_records records q).buffer.text (add_records records q).executed

add_records-Grouped :
    (records executed group : List String) (q : Query)
    → Holds executed group q
    → EndsInRecord group
    → All IsRecord records
    → Grouped executed (group ++ records) (outcome records q)
unfolding add_records
add_records-Grouped [] executed group q h ends good =
    rw (append-nil_list group, h.executed_so_far) (exec_query-Grouped executed group q h ends)
add_records-Grouped (r ∷ rest) executed group q h ends good =
    elim (Bool-cases (ltb query_size (q.buffer.cur + len r))) [
      | inr room ↦
          let fits : empty_len + len (joined_pieces group) + len r ≤ query_size =
            ground (arith, room, h.cur) in
          let put =
            add_records-Grouped rest executed (group ++ r ∷ []) (put_record r q)
              (put_record-Holds executed group q r h good.0.0 fits) (inr (group, r, refl, good.0))
              good.1 in
          subst (λ next. Grouped executed (group ++ r ∷ rest) (outcome rest next))
            (sym (add_record-room r q room))
            (subst (λ l. Grouped executed l (outcome rest (put_record r q)))
              (append_assoc_list group (r ∷ []) rest) put)
      | inl full ↦
          let middle = exec_query q.buffer.text executed in
          let fresh = restart-Holds executed group q h in
          let put =
            add_records-Grouped rest middle (r ∷ []) (put_record r (restart q))
              (put_record-Holds middle [] (restart q) r fresh good.0.0 (omega (arith, good.0.1)))
              (inr ([], r, refl, good.0)) good.1 in
          subst (λ next. Grouped executed (group ++ r ∷ rest) (outcome rest next))
            (sym (add_record-full r q full))
            (Grouped-append executed group (r ∷ rest) middle
              (outcome rest (put_record r (restart q))) (exec_query-Grouped executed group q h ends)
              put)
    ]

-- However many records a server has, the statements that are executed hold them in their order,
-- each record in one statement of a group that the array has room for but for its zero. The records
-- are not empty and fit their own array.
pub server_statements :
    (records executed : List String)
    → All IsRecord records
    → Grouped executed records (outcome records (start_query executed))
server_statements records executed good =
    add_records-Grouped records executed [] (start_query executed) (start-Holds executed) (inl refl)
      good
