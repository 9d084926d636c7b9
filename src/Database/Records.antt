-- ===== src/Database/Records.antt =====
-- What a server's rows come to: records that are not empty and fit their array.
use Prim.Native.String.append
use Prim.Native.String.{◌++◌ as append}
use text.Mathlib.TextPositions.{len-append}
use pfstrase.Prelude.{
  pos, ◌+◌, ◌≤◌, ◌≡◌, refl, sym, ap, ◌∙◌, String, Option, none, some, List, [], ◌∷◌, ◌++◌, map, All,
  All-append, len, slice, arith, Bool-cases, inl, inr, if◌then◌else◌, ◌==◌, ◌>>=◌, >>=-eq-some,
  some_inj,
}
use pfstrase.Prelude.Slices.{slice-append}
use pfstrase.Json.{JsonC}
use pfstrase.Buffer.Lengths.{length_printed, print_piece-some, print_pieces-Bounded}
use pfstrase.Buffer.{Buffer, empty_buffer, printed, print_piece, print_pieces}
use pfstrase.Database.{
  Query, record_size, tag_size, start_query, add_record, tag_pieces, event_pieces, record_text,
  row_record, insert_parsed, insert_row, insert_rows, insert_server,
}
use pfstrase.Database.Array.{IsRecord, add_records, all_records, statement}
use pfstrase.Database.Batches.{Fits, server_statements}

-- A text in brackets, written into an empty array, is a record.
StartsOpen : String → Type 0
StartsOpen piece = (t : String) × (piece ≡ append "(" t)

length_opened : (t : String) → 1 ≤ len (slice (append "(" t) 0 8191)
length_opened t = rw (slice-append "(" t 8190, len-append) (omega arith)

-- What is written behind such a text.
opened-Bounded :
    (t : String) (rest : List String) (b : Buffer)
    → print_pieces record_size (append "(" t ∷ rest) empty_buffer ≡ some b
    → IsRecord b.text
unfolding print_pieces printed
opened-Bounded t rest b done =
    let piece = append "(" t in
    let (next, put, more) =
      >>=-eq-some (print_piece record_size piece empty_buffer)
        (λ n. print_pieces record_size rest n) done in
    let (longer, within, behind) =
      length_printed record_size piece empty_buffer (omega arith) (omega arith) in
    let is_next = print_piece-some record_size piece empty_buffer next put in
    let first : Buffer = record {
      text = printed record_size empty_buffer piece;
      cur = 0 + len piece;
    } in
    let after = print_pieces-Bounded record_size rest first b within behind (rw (← is_next) more) in
    let start : 1 ≤ len (printed record_size empty_buffer piece) =
      rw (append.nil (slice piece 0 8191)) (length_opened t) in
    (omega (arith, start, after.longer), omega (arith, after.within))

record_text-IsRecord :
    (pieces : List String) (r : String)
    → All StartsOpen pieces
    → record_text pieces ≡ some r
    → IsRecord r
unfolding record_text StartsOpen
record_text-IsRecord [] r opened done = ground arith
record_text-IsRecord (piece ∷ rest) r opened done =
    let (t, starts) = opened.0 in
    let (b, put, is_r) =
      >>=-eq-some (print_pieces record_size (piece ∷ rest) empty_buffer) (λ b. some b.text) done in
    rw (← some_inj is_r) (opened-Bounded t rest b (rw (← starts) put))

module _ (J : JsonC) (print_f : J.Double → String) where
  open J use {Json, object_get_ex, entries, tokener_parse, lt, of_ℤ, get_double}

  event_pieces-StartsOpen :
      (tag_str : String) (es : List (String × Json))
      → All StartsOpen (event_pieces J print_f tag_str es)
  unfolding event_pieces StartsOpen
  event_pieces-StartsOpen tag_str [] = tt
  event_pieces-StartsOpen tag_str ((event, val) ∷ rest) =
      let others = event_pieces-StartsOpen tag_str rest in
      elim (Bool-cases (lt (of_ℤ (pos 0)) (get_double val))) [
        | inl above ↦ rw above ((_, refl), others)
        | inr not_above ↦ rw not_above others
      ]

  row_record-IsRecord :
      (host : String) (time tags te : Json) (r : String)
      → row_record J print_f host time tags te ≡ some r
      → IsRecord r
  unfolding row_record
  row_record-IsRecord host time tags te r done =
      let (b, put, text) =
        >>=-eq-some (print_pieces tag_size (tag_pieces J print_f host time tags) empty_buffer)
          (λ b. record_text (event_pieces J print_f b.text (entries te))) done in
      record_text-IsRecord (event_pieces J print_f b.text (entries te)) r
        (event_pieces-StartsOpen b.text (entries te)) text

  -- A row whose tags do not parse has no record.
  abbrev pub parsed_record : String → Json → Json → Option Json → Option (List String)
  parsed_record host time te none = some []
  parsed_record host time te (some tags) = do
    record_str ← row_record J print_f host time tags te
    some (record_str ∷ [])

  abbrev pub row_records : String → Json → String → Json → Option (List String)
  row_records host time t te =
      if t == "time" then some [] else parsed_record host time te (tokener_parse t)

  -- The records of a server, one for each row whose tags parse, in the order of the rows.
  abbrev pub server_records : String → Json → List (String × Json) → Option (List String)
  server_records host time [] = some []
  server_records host time ((t, te) ∷ rest) = do
    first ← row_records host time t te
    others ← server_records host time rest
    some (first ++ others)

  parsed_record-insert :
      (host : String) (time te : Json) (tags : Option Json) (records : List String) (q : Query)
      → parsed_record host time te tags ≡ some records
      → (insert_parsed J print_f host time te q tags ≡ some (add_records records q))
        × All IsRecord records
  unfolding add_records
  parsed_record-insert host time te none records q done = rw (← some_inj done) (refl, tt)
  parsed_record-insert host time te (some tags) records q done =
      let (r, made, one) =
        >>=-eq-some (row_record J print_f host time tags te) (λ r. some (r ∷ [])) done in
      rw (made, ← some_inj one) (refl, (row_record-IsRecord host time tags te r made, tt))

  row_records-insert :
      (host : String) (time : Json) (t : String) (te : Json) (records : List String) (q : Query)
      → row_records host time t te ≡ some records
      → (insert_row J print_f host time t te q ≡ some (add_records records q))
        × All IsRecord records
  unfolding insert_row add_records
  row_records-insert host time t te records q done = elim (Bool-cases (t == "time")) [
    | inl is_time ↦
        let skipped : some [] ≡ some records =
          sym
            (ap (λ b. if b then some [] else parsed_record host time te (tokener_parse t)) is_time)
          ∙ done in
        rw (is_time, ← some_inj skipped) (refl, tt)
    | inr is_row ↦
        let parsed : parsed_record host time te (tokener_parse t) ≡ some records =
          sym (ap (λ b. if b then some [] else parsed_record host time te (tokener_parse t)) is_row)
          ∙ done in
        rw is_row (parsed_record-insert host time te (tokener_parse t) records q parsed)
  ]

  add_records-append :
      (first others : List String) (q : Query)
      → add_records (first ++ others) q ≡ add_records others (add_records first q)
  unfolding add_records
  add_records-append [] others q = refl
  add_records-append (r ∷ first) others q = add_records-append first others (add_record r q)

  server_records-insert :
      (host : String) (time : Json) (rows : List (String × Json)) (records : List String)
      (q : Query)
      → server_records host time rows ≡ some records
      → (insert_rows J print_f host time rows q ≡ some (add_records records q))
        × All IsRecord records
  unfolding insert_rows add_records
  server_records-insert host time [] records q done = rw (← some_inj done) (refl, tt)
  server_records-insert host time ((t, te) ∷ rest) records q done =
      let (first, row, more) =
        >>=-eq-some (row_records host time t te)
          (λ first. server_records host time rest >>= λ others. some (first ++ others)) done in
      let (others, rows, all) =
        >>=-eq-some (server_records host time rest) (λ others. some (first ++ others)) more in
      let (put, good) = row_records-insert host time t te first q row in
      let (put', good') = server_records-insert host time rest others (add_records first q) rows in
      rw (put, put', ← some_inj all)
        (
          ap some (sym (add_records-append first others q)),
          All-append IsRecord first others good good',
        )

  -- Where a server has a time and its rows can be written, all its records are inserted, in the
  -- order of the rows: the statements that are executed hold them in groups, no record twice and
  -- none left out, and the array has room for each group but for its zero.
  pub insert_server-records :
      (host : String) (se time : Json) (records executed : List String)
      → object_get_ex se "time" ≡ some time
      → server_records host time (entries se) ≡ some records
      → (groups : List (List String)) × (all_records groups ≡ records)
        × (insert_server J print_f host se executed ≡ some (executed ++ map statement groups))
        × All Fits groups
  unfolding insert_server
  insert_server-records host se time records executed timed written =
      let (put, good) =
        server_records-insert host time (entries se) records (start_query executed) written in
      let (groups, all, made, fit) = server_statements records executed good in
      (groups, all, rw (timed, put) (ap some made), fit)
