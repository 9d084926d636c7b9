-- ===== src/Database/Inserts.antt =====
-- server/pq.c, pq_insert: what it executes for the servers of a view, and whether it goes through.
use mathlib.Core.List.{append-nil}
use pfstrase.Prelude.{
  String, ◌≡◌, refl, sym, ap, ◌∙◌, Option, none, some, List, [], ◌∷◌, ◌++◌, ◌==◌, map, All,
  Bool-cases, Option-cases, inl, inr, if◌then◌else◌, ◌>>=◌, >>=-eq-some, some_inj,
}
use pfstrase.Json.{JsonC}
use pfstrase.Stats.View.{Filters, View, group_ratesbytags}
use pfstrase.Shm.{get_shm_map}
use pfstrase.Database.{
  Query, add_record, row_record, insert_parsed, insert_row, insert_rows, insert_server,
  insert_timed, insert_servers, pq_insert, start_query,
}
use pfstrase.Database.Array.{statement, all_records}
use pfstrase.Database.Batches.{Fits, Grouped, Grouped-append}
use pfstrase.Database.Records.{parsed_record, row_records, server_records, insert_server-records}

module _ (J : JsonC) (print_f : J.Double → String) where
  open J use {Json, object_get_ex, entries, tokener_parse}

  parsed_record-some :
      (host : String) (time te : Json) (q after : Query) (tags : Option Json)
      → insert_parsed J print_f host time te q tags ≡ some after
      → (records : List String) × (parsed_record J print_f host time te tags ≡ some records)
  parsed_record-some host time te q after none done = ([], refl)
  parsed_record-some host time te q after (some tags) done =
      let (r, made, more) =
        >>=-eq-some (row_record J print_f host time tags te) (λ r. some (add_record r q)) done in
      (r ∷ [], rw made refl)

  row_records-some :
      (host : String) (time : Json) (t : String) (te : Json) (q after : Query)
      → insert_row J print_f host time t te q ≡ some after
      → (records : List String) × (row_records J print_f host time t te ≡ some records)
  unfolding insert_row
  row_records-some host time t te q after done = elim (Bool-cases (t == "time")) [
    | inl is_time ↦ ([], rw is_time refl)
    | inr is_row ↦
        let parsed =
          sym (
            ap (λ b. if b then some q else insert_parsed J print_f host time te q (tokener_parse t))
              is_row)
          ∙ done in
        rw is_row (parsed_record-some host time te q after (tokener_parse t) parsed)
  ]

  server_records-some :
      (host : String) (time : Json) (rows : List (String × Json)) (q after : Query)
      → insert_rows J print_f host time rows q ≡ some after
      → (records : List String) × (server_records J print_f host time rows ≡ some records)
  unfolding insert_rows
  server_records-some host time [] q after done = ([], refl)
  server_records-some host time ((t, te) ∷ rest) q after done =
      let (mid, row, more) =
        >>=-eq-some (insert_row J print_f host time t te q)
          (λ mid. insert_rows J print_f host time rest mid) done in
      let (first, made) = row_records-some host time t te q mid row in
      let (others, made') = server_records-some host time rest mid after more in
      (first ++ others, rw (made, made') refl)

  abbrev timed_records : String → Json → Option Json → Option (List String)
  timed_records host se none = some []
  timed_records host se (some time) = server_records J print_f host time (entries se)

  -- The records of all servers of a view: those of a server without a time are none.
  abbrev pub view_records : List (String × Json) → Option (List String)
  view_records [] = some []
  view_records ((host, se) ∷ rest) = do
    first ← timed_records host se (object_get_ex se "time")
    others ← view_records rest
    some (first ++ others)

  insert_server-Grouped :
      (host : String) (se : Json) (executed after : List String)
      → insert_server J print_f host se executed ≡ some after
      → (records : List String) × (timed_records host se (object_get_ex se "time") ≡ some records)
        × Grouped executed records after
  unfolding insert_server
  insert_server-Grouped host se executed after done =
      elim (Option-cases (object_get_ex se "time")) [
        | inl untimed ↦
            let same : executed ≡ after =
              some_inj (sym (ap (insert_timed J print_f host se executed) untimed) ∙ done) in
            ([], rw untimed refl, ([], refl, sym same ∙ sym (append-nil executed), tt))
        | inr (time, timed) ↦
            let (q, rows, more) =
              >>=-eq-some (insert_rows J print_f host time (entries se) (start_query executed)) _
                (sym (ap (insert_timed J print_f host se executed) timed) ∙ done) in
            let (records, made) =
              server_records-some host time (entries se) (start_query executed) q rows in
            let (groups, all, ran, fit) =
              insert_server-records J print_f host se time records executed timed made in
            (records, rw timed made, (groups, all, some_inj (sym done ∙ ran), fit))
      ]

  insert_servers-Grouped :
      (servers : List (String × Json)) (executed after : List String)
      → insert_servers J print_f servers executed ≡ some after
      → (records : List String) × (view_records servers ≡ some records)
        × Grouped executed records after
  unfolding insert_servers
  insert_servers-Grouped [] executed after done =
      ([], refl, ([], refl, sym (some_inj done) ∙ sym (append-nil executed), tt))
  insert_servers-Grouped ((host, se) ∷ rest) executed after done =
      let (mid, first, more) =
        >>=-eq-some (insert_server J print_f host se executed)
          (λ mid. insert_servers J print_f rest mid) done in
      let (records, made, grouped) = insert_server-Grouped host se executed mid first in
      let (others, made', grouped') = insert_servers-Grouped rest mid after more in
      (
        records ++ others,
        rw (made, made') refl,
        Grouped-append executed records others mid after grouped grouped',
      )

  -- Where pq_insert goes through, it has grouped the map that it read by system, file system,
  -- server, job and user, and the statements that it has executed hold the records of all rows of
  -- all servers of that view that have a time, in their order, none left out and none twice, in
  -- groups that the array has room for but for its zero.
  pub pq_insert-records :
      (f : Filters) (v v' : View J) (memory : String) (executed : List String)
      → pq_insert J print_f f v memory ≡ some (v', executed)
      → (group_ratesbytags J
            ("system" ∷ "fid" ∷ "server" ∷ "jid" ∷ "uid" ∷ [])
            f
            (record v { server_tag_rate_map = get_shm_map J v.server_tag_rate_map memory })
          ≡ some v')
        × ((records : List String) × (groups : List (List String)) × (view_records
                (entries v'.screen_map)
              ≡ some records)
            × (all_records groups ≡ records)
            × (executed ≡ map statement groups)
            × All Fits groups)
  unfolding pq_insert
  pq_insert-records f v v' memory executed done =
      let names = "system" ∷ "fid" ∷ "server" ∷ "jid" ∷ "uid" ∷ [] in
      let (w, grouped, more) =
        >>=-eq-some {B = View J × List String}
          (group_ratesbytags J names f
            (record v { server_tag_rate_map = get_shm_map J v.server_tag_rate_map memory }))
          (λ w. insert_servers J print_f (entries w.screen_map) [] >>= λ e. some (w, e)) done in
      let (e, ran, last) =
        >>=-eq-some {B = View J × List String} (insert_servers J print_f (entries w.screen_map) [])
          (λ e. some (w, e)) more in
      let view : w ≡ v' = ap (λ p. p.0) (some_inj last) in
      let all : insert_servers J print_f (entries v'.screen_map) [] ≡ some executed =
        ap (λ u. insert_servers J print_f (entries u.screen_map) []) (sym view)
        ∙ ran
        ∙ ap (λ p. some p.1) (some_inj last) in
      let (records, made, (groups, same, whole, fit)) =
        insert_servers-Grouped (entries v'.screen_map) [] executed all in
      (grouped ∙ ap some view, (records, groups, made, same, whole, fit))
