-- ===== src/Screen/Table/Rows.antt =====
-- The rows of the table, whatever the order that sort_da gives them.
use mathlib.Core.List.{Perm, append-nil, append_assoc}
use mathlib.Core.Path.{subst}
use pfstrase.Prelude.{
  ℤ, pos, not, ◌&&◌, ◌||◌, strstr, is_among, Option-cases, String, Bool, true, false, ◌≡◌, refl,
  sym, ap, ◌∙◌, Option, none, some, List, [], ◌∷◌, ◌++◌, ◌==◌, Bool-cases, inl, inr, if◌then◌else◌,
}
use pfstrase.Json.{JsonC}
use pfstrase.Json.Objects.{copy_tag}
use pfstrase.Screen.Table.Order.{is_order}
use pfstrase.Screen.Table.{
  Table, default_events, hides_event, add_details, copy_events, add_row, add_rows, add_servers,
  da_refresh, sort_da,
}

hidden :
    (a b c d e f u v : Bool)
    → (not (a || (b || (c || (d || (e || (f || false)))))) && not u && not v)
      ≡ not (a || b || c || d || e || f || u || v)
hidden true b c d e f u v = refl
hidden false true c d e f u v = refl
hidden false false true d e f u v = refl
hidden false false false true e f u v = refl
hidden false false false false true f u v = refl
hidden false false false false false true u v = refl
hidden false false false false false false true v = refl
hidden false false false false false false false true = refl
hidden false false false false false false false false = refl

module _ (J : JsonC) where
  open J use {
    Json, object_add, object_get_ex, entries, items, new_array, array_add, array_sort,
    tokener_parse, lt, get_double, of_ℤ,
  }

  -- The library's sort puts the elements of an array into some order, where the comparison orders
  -- them.
  abbrev pub Permutes : Type 0
  Permutes =
      (a : Json) (compare : Json → Json → ℤ)
      → is_order compare (items a) ≡ true
      → Perm (items (array_sort a compare)) (items a)

  -- An event of the groups, as a row shows it.
  abbrev with_event : String → Option Json → Json → Json
  with_event event none row = row
  with_event event (some val) row = object_add row event val

  abbrev with_events : Json → List String → Json → Json
  with_events te [] row = row
  with_events te (event ∷ rest) row =
      with_events te rest (with_event event (object_get_ex te event) row)

  -- The detailed view shows neither the events that have columns of their own, nor times, nor
  -- values below 2.
  abbrev is_detail : String → Json → Bool
  is_detail event val =
      not (
        is_among event ("load" ∷ "load_eff" ∷ "read_bytes" ∷ "write_bytes" ∷ "iops" ∷ "bytes" ∷ []))
      && not (strstr event "[usec")
      && not (lt (get_double val) (of_ℤ (pos 2)))

  -- The events that the detailed view adds to a row.
  abbrev details : Json → List (String × Json) → Json
  details row [] = row
  details row ((event, val) ∷ rest) =
      details (if is_detail event val then object_add row event val else row) rest

  -- A row: its tags, the events with columns of their own, and in the detailed view the others.
  abbrev shown_row : Bool → Json → Json → Json
  shown_row detailed te tags =
      let row = with_events te ("nclients" ∷ "load" ∷ "load_eff" ∷ "iops" ∷ "bytes" ∷ []) tags in
      if detailed then details row (entries te) else row

  with_event-copy_tag :
      (te row : Json) (event : String)
      → copy_tag J te event event row ≡ with_event event (object_get_ex te event) row
  unfolding copy_tag
  with_event-copy_tag te row event = elim (Option-cases (object_get_ex te event)) [
    | inl e ↦ rw (e, copy_tag)
    | inr (val, e) ↦ rw (e, copy_tag)
  ]

  with_events-copy_events :
      (te tags : Json)
      → copy_events J te tags
        ≡ with_events te ("nclients" ∷ "load" ∷ "load_eff" ∷ "iops" ∷ "bytes" ∷ []) tags
  unfolding copy_events
  with_events-copy_events te tags = simp with_event-copy_tag

  is_detail-hides_event :
      (event : String) (val : Json) → is_detail event val ≡ not (hides_event J event val)
  unfolding hides_event
  is_detail-hides_event event val =
      hidden (event == "load") (event == "load_eff") (event == "read_bytes")
        (event == "write_bytes") (event == "iops") (event == "bytes") (strstr event "[usec")
        (lt (get_double val) (of_ℤ (pos 2)))

  abbrev parsed_row : Bool → Json → Option Json → List Json
  parsed_row detailed te none = []
  parsed_row detailed te (some tags) = shown_row detailed te tags ∷ []

  -- The rows of a server: one for each group but "time" whose tags parse, in the order of the
  -- groups.
  abbrev server_rows : Bool → List (String × Json) → List Json
  server_rows detailed [] = []
  server_rows detailed ((t, te) ∷ rest) =
      (if t == "time" then [] else parsed_row detailed te (tokener_parse t))
      ++ server_rows detailed rest

  -- The rows of all servers.
  abbrev pub screen_rows : Bool → List (String × Json) → List Json
  screen_rows detailed [] = []
  screen_rows detailed ((s, se) ∷ rest) =
      server_rows detailed (entries se) ++ screen_rows detailed rest

  row-add_details :
      (es : List (String × Json)) (screvents row : Json)
      → (add_details J (screvents, row) es).1 ≡ details row es
  unfolding add_details
  row-add_details [] screvents row = refl
  row-add_details ((event, val) ∷ es) screvents row = elim (Bool-cases (hides_event J event val)) [
    | inl hidden ↦ rw (is_detail-hides_event event val, hidden) (row-add_details es screvents row)
    | inr shown ↦
        rw (is_detail-hides_event event val, shown)
          (row-add_details es (object_add screvents event (J.new_string ""))
            (object_add row event val))
  ]

  items-add_row :
      (detailed : Bool) (table : Table J) (te : Json) (tags : Option Json)
      → items (add_row J detailed table te tags).scrdata_array
        ≡ items table.scrdata_array ++ parsed_row detailed te tags
  items-add_row detailed table te none = sym (append-nil (items table.scrdata_array))
  items-add_row false table te (some tags) =
      J.items-array_add table.scrdata_array (copy_events J te tags)
      ∙ ap (λ row. items table.scrdata_array ++ row ∷ []) (with_events-copy_events te tags)
  items-add_row true table te (some tags) =
      J.items-array_add table.scrdata_array _
      ∙ ap (λ row. items table.scrdata_array ++ row ∷ [])
          (row-add_details (entries te) table.screvents (copy_events J te tags)
            ∙ ap (λ row. details row (entries te)) (with_events-copy_events te tags))

  -- A group, or the time, which has no row.
  items-group :
      (is_time detailed : Bool) (table : Table J) (te : Json) (tags : Option Json)
      → items (if is_time then table else add_row J detailed table te tags).scrdata_array
        ≡ items table.scrdata_array ++ (if is_time then [] else parsed_row detailed te tags)
  items-group true detailed table te tags = sym (append-nil (items table.scrdata_array))
  items-group false detailed table te tags = items-add_row detailed table te tags

  items-add_rows :
      (detailed : Bool) (rows : List (String × Json)) (table : Table J)
      → items (add_rows J detailed table rows).scrdata_array
        ≡ items table.scrdata_array ++ server_rows detailed rows
  unfolding add_rows
  items-add_rows detailed [] table = sym (append-nil (items table.scrdata_array))
  items-add_rows detailed ((t, te) ∷ rest) table =
      let tags = tokener_parse t in
      let row = if t == "time" then [] else parsed_row detailed te tags in
      items-add_rows detailed rest (if t == "time" then table else add_row J detailed table te tags)
      ∙ ap (λ l. l ++ server_rows detailed rest) (items-group (t == "time") detailed table te tags)
      ∙ append_assoc (items table.scrdata_array) row (server_rows detailed rest)

  items-add_servers :
      (detailed : Bool) (servers : List (String × Json)) (table : Table J)
      → items (add_servers J detailed table servers).scrdata_array
        ≡ items table.scrdata_array ++ screen_rows detailed servers
  unfolding add_servers
  items-add_servers detailed [] table = sym (append-nil (items table.scrdata_array))
  items-add_servers detailed ((s, se) ∷ rest) table =
      items-add_servers detailed rest (add_rows J detailed table (entries se))
      ∙ ap (λ l. l ++ screen_rows detailed rest) (items-add_rows detailed (entries se) table)
      ∙ append_assoc (items table.scrdata_array) (server_rows detailed (entries se))
          (screen_rows detailed rest)

  -- Where sort_da orders the rows by the event that the viewer sorts by, the rows of its table are
  -- those of all groups of all servers but "time" whose tags parse, each once: the tags with the
  -- group's clients, loads, iops and bytes and, in the detailed view, with its other events of at
  -- least 2 that are no times. The library's sort permutes elements that the comparison orders.
  pub da_refresh-rows :
      (detailed : Bool) (sortbykey : String) (screen_map : Json)
      → Permutes
      → is_order (sort_da J sortbykey) (screen_rows detailed (entries screen_map)) ≡ true
      → Perm
          (items (da_refresh J detailed sortbykey screen_map).scrdata_array)
          (screen_rows detailed (entries screen_map))
  unfolding da_refresh
  da_refresh-rows detailed sortbykey screen_map permutes ordered =
      let table =
        add_servers J detailed (record { scrdata_array = new_array; screvents = default_events J })
          (entries screen_map) in
      let rows : items table.scrdata_array ≡ screen_rows detailed (entries screen_map) =
        items-add_servers detailed (entries screen_map)
          (record { scrdata_array = new_array; screvents = default_events J })
        ∙ ap (λ l. l ++ screen_rows detailed (entries screen_map)) J.items-new_array in
      subst (Perm (items (array_sort table.scrdata_array (sort_da J sortbykey)))) rows (
        permutes table.scrdata_array (sort_da J sortbykey)
          (ap (is_order (sort_da J sortbykey)) rows ∙ ordered))
