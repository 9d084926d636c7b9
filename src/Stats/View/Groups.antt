-- ===== src/Stats/View/Groups.antt =====
-- group_ratesbytags: the groups that it shows of each server.
use pfstrase.Prelude.{
  String, false, ◌≡◌, sym, ap, ◌∙◌, none, some, List, ◌==◌, DistinctKeys, lookup, ◌>>=◌,
}
use pfstrase.Json.{JsonC}
use pfstrase.Stats.Totals.{derived_events}
use pfstrase.Stats.Totals.Sums.{event_of, tally, AllDistinct}
use pfstrase.Stats.Group.{set_group_tags}
use pfstrase.Stats.View.{Filters, View, group_server, group_ratesbytags}
use pfstrase.Stats.View.Sums.{passing_rows}
use pfstrase.Stats.View.Each.{
  timed_groups, groups_shown, view_servers-groups_shown, sums-group_server, ran-view_servers,
}

module _ (J : JsonC) (names : List String) (f : Filters) where
  open J use {Json, object_get_ex, entries}

  -- Where group_ratesbytags goes through, it shows for every server that has a time groups of its
  -- own rows only: each event of a group but "time" is the sum over the rows of the group that pass
  -- the filters, in their order (of the load, the last), and the events that derived_events
  -- makes are put on top. No two servers share a name, and no row names an event twice.
  pub group_ratesbytags-sums :
      (v v' : View J) (s : String) (rates time : Json)
      → DistinctKeys (entries v.server_tag_rate_map)
      → object_get_ex v.server_tag_rate_map s ≡ some rates
      → object_get_ex rates "time" ≡ some time
      → AllDistinct J (entries rates)
      → group_ratesbytags J names f v ≡ some v'
      → (sums : Json) × (added : List (String × Json)) × (passing_rows J
            (set_group_tags J names)
            f
            s
            (entries rates)
          ≡ some added)
        × ((tags event : String)
            → ("time" == tags) ≡ false
            → event_of J sums tags event ≡ tally J tags event none added)
        × (object_get_ex v'.screen_map s ≡ some (derived_events J sums))
  unfolding group_ratesbytags
  group_ratesbytags-sums v v' s rates time d there timed distinct done =
      let tags = set_group_tags J names in
      let es = entries v.server_tag_rate_map in
      let old = object_get_ex v.screen_map s in
      let known : lookup s es ≡ some rates =
        sym (J.object_get_ex-entries v.server_tag_rate_map s) ∙ there in
      let (made, ran) = ran-view_servers J tags f v v' es s rates time done known timed in
      let done_for : (group_server J tags f s time rates >>= λ o. some o.0) ≡ some made.0 =
        ap (λ o. o >>= λ p. some p.0) ran in
      let shown : object_get_ex v'.screen_map s ≡ some made.0 =
        view_servers-groups_shown J tags f v v' es s d done
        ∙ ap (λ o. groups_shown J tags f s o old) known
        ∙ ap (λ t. timed_groups J tags f s rates t old) timed
        ∙ done_for in
      let (sums, added, passing, totals, derived) =
        sums-group_server J tags f s time rates made.0 distinct done_for in
      (sums, added, passing, totals, shown ∙ ap some derived)
