-- ===== src/Stats/View/Each.antt =====
-- group_ratesbytags over all servers: what the viewer gets of each.
use mathlib.Core.Path.{subst}
use pfstrase.Prelude.{
  String, false, ◌≡◌, refl, sym, ap, ◌∙◌, Option, none, some, List, [], ◌∷◌, ◌==◌, eq_iff, Absent,
  DistinctKeys, lookup, lookup-Absent, inl, inr, Bool-cases, Option-cases, ◌>>=◌, >>=-eq-some,
  some_inj, if◌then◌else◌,
}
use pfstrase.Json.{JsonC}
use pfstrase.Json.Objects.{object_get_ex-object_add, object_get_ex-new_object}
use pfstrase.Stats.Totals.{derived_events}
use pfstrase.Stats.Totals.Sums.{event_of, tally, AllDistinct}
use pfstrase.Stats.View.{
  Filters, View, group_rows, group_server, write_shared, view_server, view_servers,
}
use pfstrase.Stats.View.Sums.{passing_rows, event_of-group_rows}

module _ (J : JsonC) (group_tags : J.Json) (f : Filters) where
  open J use {Json, new_object, object_add, object_get_ex, entries}

  -- What the loop makes of the groups of a server: none without a time.
  abbrev pub timed_groups : String → Json → Option Json → Option Json → Option Json
  timed_groups s rates none old = old
  timed_groups s rates (some time) old = group_server J group_tags f s time rates >>= λ o. some o.0

  abbrev pub groups_shown : String → Option Json → Option Json → Option Json
  groups_shown s none old = old
  groups_shown s (some rates) old = timed_groups s rates (object_get_ex rates "time") old

  screen-view_server :
      (v next : View J) (key : String) (rates : Json) (s : String)
      → view_server J group_tags f v key rates ≡ some next
      → object_get_ex next.screen_map s ≡ (
          if key == s
          then groups_shown s (some rates) (object_get_ex v.screen_map s)
          else object_get_ex v.screen_map s)
  unfolding view_server
  screen-view_server v next key rates s done = elim (Option-cases (object_get_ex rates "time")) [
    | inl untimed ↦
        let same : v ≡ next = some_inj (rw (untimed, view_server) at done) in
        elim (Bool-cases (key == s)) [
          | inl e ↦ rw (e, untimed) (ap (λ w. object_get_ex w.screen_map s) (sym same))
          | inr e ↦ rw e (ap (λ w. object_get_ex w.screen_map s) (sym same))
        ]
    | inr (time, timed) ↦
        let (made, ran, last) =
          >>=-eq-some {B = View J} (group_server J group_tags f key time rates)
            (λ made. some (record {
              server_tag_rate_map = object_add v.server_tag_rate_map key made.1;
              screen_map = object_add v.screen_map key made.0;
            }))
            (rw (timed, view_server) at done) in
        let shown : object_get_ex next.screen_map s
            ≡ object_get_ex (object_add v.screen_map key made.0) s =
          ap (λ w. object_get_ex w.screen_map s) (sym (some_inj last)) in
        elim (Bool-cases (key == s)) [
          | inl e ↦
              let same : key ≡ s = (eq_iff key s).0 e in
              let ran' : group_server J group_tags f s time rates ≡ some made =
                ap (λ k. group_server J group_tags f k time rates) (sym same) ∙ ran in
              rw (e, timed)
                (shown
                  ∙ rw (object_get_ex-object_add, e) refl
                  ∙ ap (λ o. o >>= λ p. some p.0) (sym ran'))
          | inr e ↦ rw e (shown ∙ rw (object_get_ex-object_add, e) refl)
        ]
  ]

  pub view_servers-groups_shown :
      (v v' : View J) (es : List (String × Json)) (s : String)
      → DistinctKeys es
      → view_servers J group_tags f v es ≡ some v'
      → object_get_ex v'.screen_map s ≡ groups_shown s (lookup s es) (object_get_ex v.screen_map s)
  unfolding view_servers lookup
  view_servers-groups_shown v v' [] s d done =
      ap (λ w. object_get_ex w.screen_map s) (sym (some_inj done))
  view_servers-groups_shown v v' ((key, rates) ∷ es) s d done =
      let (next, ran, rest) =
        >>=-eq-some (view_server J group_tags f v key rates) (λ n. view_servers J group_tags f n es)
          done in
      let later = view_servers-groups_shown next v' es s d.1 rest in
      let first = screen-view_server v next key rates s ran in
      elim (Bool-cases (key == s)) [
        | inl e ↦
            let gone : lookup s es ≡ none =
              lookup-Absent s es (subst (λ k. Absent k es) ((eq_iff key s).0 e) d.0) in
            rw e (
              later
              ∙ ap (λ o. groups_shown s o (object_get_ex next.screen_map s)) gone
              ∙ first
              ∙ rw e refl)
        | inr e ↦
            let kept : object_get_ex next.screen_map s ≡ object_get_ex v.screen_map s =
              first ∙ rw e refl in
            rw e (later ∙ ap (groups_shown s (lookup s es)) kept)
      ]

  no_events : (tags event : String) → event_of J new_object tags event ≡ none
  no_events tags event = rw object_get_ex-new_object refl

  -- The groups of one server, before events are derived.
  pub sums-group_server :
      (s : String) (time rates groups : Json)
      → AllDistinct J (entries rates)
      → (group_server J group_tags f s time rates >>= λ o. some o.0) ≡ some groups
      → (sums : Json) × (added : List (String × Json)) × (passing_rows J group_tags f s
            (entries rates)
          ≡ some added)
        × ((tags event : String)
            → ("time" == tags) ≡ false
            → event_of J sums tags event ≡ tally J tags event none added)
        × (groups ≡ derived_events J sums)
  unfolding group_server
  sums-group_server s time rates groups distinct done =
      let (made, ran, last) =
        >>=-eq-some (group_server J group_tags f s time rates) (λ (o : Json × Json). some o.0)
          done in
      let (g, grouped, same) =
        >>=-eq-some {B = Json × Json}
          (group_rows J group_tags f s time (record { tag_rate_map = new_object; shared = [] })
            (entries rates))
          (λ g. some (
            derived_events J g.tag_rate_map,
            write_shared J rates (derived_events J g.tag_rate_map) g.shared,
          ))
          ran in
      let (added, passing, sums) =
        event_of-group_rows J group_tags f s time
          (record { tag_rate_map = new_object; shared = [] }) g (entries rates) distinct grouped in
      (
        g.tag_rate_map,
        added,
        passing,
        λ tags event other.
            sums tags event other ∙ ap (λ o. tally J tags event o added) (no_events tags event),
        sym (ap (λ p. p.0) (some_inj same) ∙ some_inj last),
      )

  ran-view_server :
      (v next : View J) (s : String) (rates time : Json)
      → view_server J group_tags f v s rates ≡ some next
      → object_get_ex rates "time" ≡ some time
      → (made : Json × Json) × (group_server J group_tags f s time rates ≡ some made)
  unfolding view_server
  ran-view_server v next s rates time done timed =
      let (made, ran, last) =
        >>=-eq-some {B = View J} (group_server J group_tags f s time rates)
          (λ made. some (record {
            server_tag_rate_map = object_add v.server_tag_rate_map s made.1;
            screen_map = object_add v.screen_map s made.0;
          }))
          (rw (timed, view_server) at done) in
      (made, ran)

  -- Where the loop goes through, it has grouped every server with a time.
  pub ran-view_servers :
      (v v' : View J) (es : List (String × Json)) (s : String) (rates time : Json)
      → view_servers J group_tags f v es ≡ some v'
      → lookup s es ≡ some rates
      → object_get_ex rates "time" ≡ some time
      → (made : Json × Json) × (group_server J group_tags f s time rates ≡ some made)
  unfolding view_servers lookup
  ran-view_servers v v' [] s rates time done there timed = cc
  ran-view_servers v v' ((key, entry) ∷ es) s rates time done there timed =
      let (next, ran, rest) =
        >>=-eq-some (view_server J group_tags f v key entry) (λ n. view_servers J group_tags f n es)
          done in
      elim (Bool-cases (key == s)) [
        | inl e ↦
            let own : entry ≡ rates = some_inj (rw (e, lookup) at there) in
            let ran' : view_server J group_tags f v s rates ≡ some next =
              sym (
                ap (λ k. view_server J group_tags f v k entry) ((eq_iff key s).0 e)
                ∙ ap (view_server J group_tags f v s) own)
              ∙ ran in
            ran-view_server v next s rates time ran' timed
        | inr e ↦ ran-view_servers next v' es s rates time rest (rw (e, lookup) at there) timed
      ]
