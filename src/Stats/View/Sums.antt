-- ===== src/Stats/View/Sums.antt =====
-- What the groups of a server hold: the sums over the rows that pass the filters.
use pfstrase.Prelude.{
  String, Bool, true, false, ◌≡◌, refl, sym, ap, ◌∙◌, Option, none, some, List, [], ◌∷◌, ◌++◌, ◌==◌,
  DistinctKeys, snprintf_format, Bool-cases, inl, inr, ◌>>=◌, >>=-eq-some, some_inj, if◌then◌else◌,
}
use pfstrase.Json.{JsonC}
use pfstrase.Json.Objects.{object_get_ex-object_add}
use pfstrase.Stats.Totals.Sums.{event_of, plus, tally, event_of-add_stats, AllDistinct}
use pfstrase.Stats.Group.{select_tags}
use pfstrase.Stats.View.{
  Filters, passes, Grouping, merge_row, merge_if, group_parsed, group_row, group_rows,
}

module _ (J : JsonC) (group_tags : J.Json) (f : Filters) (server : String) where
  open J use {Json, new_object, object_add, object_get_ex, entries, to_json_string, tokener_parse}

  -- The group of a row that passes, as the text of its tags.
  abbrev passing_row : Bool → Json → Json → Option (List (String × Json))
  passing_row false cur_tags rates = some []
  passing_row true cur_tags rates = do
    group ← snprintf_format 256 (to_json_string cur_tags)
    some ((group, rates) ∷ [])

  abbrev cur_tags_of : Json → Json
  cur_tags_of pre_tags = select_tags J pre_tags new_object (entries group_tags)

  abbrev parsed_row : Json → Option Json → Option (List (String × Json))
  parsed_row rates none = some []
  parsed_row rates (some pre_tags) =
      passing_row (passes J f server (cur_tags_of pre_tags)) (cur_tags_of pre_tags) rates

  -- The rows that pass the filters, each under its group: not the time, and none whose tags do not
  -- parse.
  abbrev pub passing_rows : List (String × Json) → Option (List (String × Json))
  passing_rows [] = some []
  passing_rows ((tags, rates) ∷ rest) = do
    first ← if tags == "time" then some [] else parsed_row rates (tokener_parse tags)
    others ← passing_rows rest
    some (first ++ others)

  tally-append :
      (tags event : String) (sum : Option Json) (xs ys : List (String × Json))
      → tally J tags event sum (xs ++ ys) ≡ tally J tags event (tally J tags event sum xs) ys
  tally-append tags event sum [] ys = refl
  tally-append tags event sum ((group, stats) ∷ xs) ys =
      tally-append tags event
        (if group == tags then plus J event (object_get_ex stats event) sum else sum) xs ys

  -- A step adds rows to the groups other than "time".
  Adds : Grouping J → List (String × Json) → Grouping J → Type 0
  Adds g added g' =
      (tags event : String)
      → ("time" == tags) ≡ false
      → event_of J g'.tag_rate_map tags event
        ≡ tally J tags event (event_of J g.tag_rate_map tags event) added

  merge_if-Adds :
      (passed : Bool) (g g' : Grouping J) (cur_tags : Json) (tags : String) (rates : Json)
      → DistinctKeys (entries rates)
      → merge_if J passed g cur_tags tags rates ≡ some g'
      → (added : List (String × Json)) × (passing_row passed cur_tags rates ≡ some added)
        × Adds g added g'
  unfolding Adds merge_row
  merge_if-Adds false g g' cur_tags tags rates d done = (
    [],
    refl,
    λ group event other. ap (λ h. event_of J h.tag_rate_map group event) (sym (some_inj done)),
  )
  merge_if-Adds true g g' cur_tags tags rates d done =
      let (t, printed, same) =
        >>=-eq-some {B = Grouping J} (snprintf_format 256 (to_json_string cur_tags)) _ done in
      (
        (t, rates) ∷ [],
        rw printed refl,
        λ group event other.
            ap (λ h. event_of J h.tag_rate_map group event) (sym (some_inj same))
            ∙ event_of-add_stats J g.tag_rate_map rates t group event d,
      )

  group_parsed-Adds :
      (g g' : Grouping J) (tags : String) (rates : Json) (pre : Option Json)
      → DistinctKeys (entries rates)
      → group_parsed J group_tags f server g tags rates pre ≡ some g'
      → (added : List (String × Json)) × (parsed_row rates pre ≡ some added) × Adds g added g'
  unfolding Adds
  group_parsed-Adds g g' tags rates none d done = (
    [],
    refl,
    λ group event other. ap (λ h. event_of J h.tag_rate_map group event) (sym (some_inj done)),
  )
  group_parsed-Adds g g' tags rates (some pre) d done =
      merge_if-Adds (passes J f server (cur_tags_of pre)) g g' (cur_tags_of pre) tags rates d done

  module _ (time : Json) where
    group_row-Adds :
        (g g' : Grouping J) (tags : String) (rates : Json)
        → DistinctKeys (entries rates)
        → group_row J group_tags f server time g tags rates ≡ some g'
        → (added : List (String × Json)) × ((if tags == "time"
              then some []
              else parsed_row rates (tokener_parse tags))
            ≡ some added)
          × Adds g added g'
    unfolding Adds group_row
    group_row-Adds g g' tags rates d done = elim (Bool-cases (tags == "time")) [
      | inl is_time ↦
          let timed : Grouping J = record g {
            tag_rate_map = object_add g.tag_rate_map "time" time;
          } in
          let same : some timed ≡ some g' =
            sym (
              ap
                (λ b.
                  if b
                  then some timed
                  else group_parsed J group_tags f server g tags rates (tokener_parse tags))
                is_time)
            ∙ done in
          (
            [],
            rw is_time refl,
            λ group event other.
                ap (λ h. event_of J h.tag_rate_map group event) (sym (some_inj same))
                ∙ rw (object_get_ex-object_add, other) refl,
          )
      | inr is_row ↦
          let parsed : group_parsed J group_tags f server g tags rates (tokener_parse tags)
              ≡ some g' =
            sym (
              ap
                (λ b.
                  if b
                  then some (record g { tag_rate_map = object_add g.tag_rate_map "time" time })
                  else group_parsed J group_tags f server g tags rates (tokener_parse tags))
                is_row)
            ∙ done in
          rw is_row (group_parsed-Adds g g' tags rates (tokener_parse tags) d parsed)
    ]

    -- Where the rows of a server are grouped, every event of every group but "time" is what it was,
    -- with the event of each row of that group that passes the filters added in the order of the
    -- rows (of the load, the last). No row names an event twice.
    pub event_of-group_rows :
        (g g' : Grouping J) (rows : List (String × Json))
        → AllDistinct J rows
        → group_rows J group_tags f server time g rows ≡ some g'
        → (added : List (String × Json)) × (passing_rows rows ≡ some added)
          × ((tags event : String)
              → ("time" == tags) ≡ false
              → event_of J g'.tag_rate_map tags event
                ≡ tally J tags event (event_of J g.tag_rate_map tags event) added)
    unfolding group_rows Adds
    event_of-group_rows g g' [] d done = (
      [],
      refl,
      λ group event other. ap (λ h. event_of J h.tag_rate_map group event) (sym (some_inj done)),
    )
    event_of-group_rows g g' ((tags, rates) ∷ rest) d done =
        let (mid, row, more) =
          >>=-eq-some (group_row J group_tags f server time g tags rates)
            (λ next. group_rows J group_tags f server time next rest) done in
        let (first, made, adds) = group_row-Adds g mid tags rates d.0 row in
        let (others, made', adds') = event_of-group_rows mid g' rest d.1 more in
        (
          first ++ others,
          rw (made, made') refl,
          λ group event other.
              adds' group event other
              ∙ ap (λ sum. tally J group event sum others) (adds group event other)
              ∙ sym (tally-append group event (event_of J g.tag_rate_map group event) first others),
        )
