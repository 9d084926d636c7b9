-- ===== src/Stats/Group/Counted.antt =====
-- aggregate_stat: what its loop over the rates comes to.
use mathlib.Core.Path.{subst}
use pfstrase.Prelude.{
  ℕ, ◌+◌, String, ◌||◌, ◌≡◌, refl, sym, ap, ◌∙◌, Option, none, some, List, [], ◌∷◌, arith, length,
  Option-cases, inl, inr, ◌>>=◌, >>=-eq-some, some_inj, snprintf_format,
}
use pfstrase.Json.{JsonC}
use pfstrase.Json.Objects.{object_get_ex-new_object}
use pfstrase.Stats.Totals.{add_stats}
use pfstrase.Stats.Totals.Sums.{add_all}
use pfstrase.Stats.Group.{
  count_client, select_tags, stats_of_type, aggregate_entry, aggregate_if, aggregate_entries,
}
use pfstrase.Stats.Group.Clients.{
  is_some, contains, total, Shows, nid_of, cons_nid, cons_stats, cons_typed, typed_stats,
  client_nids, Counts, count_client-Counts,
}

module _ (J : JsonC) where
  open J use {Json, object_get_ex, object_add, new_object, entries, to_json_string}

  -- What is added to the groups for a list of stats, with a number of clients for each.
  abbrev pub Shown : List Json → List (String × Json) → List ℕ → Type 0
  Shown [] [] [] = Unit
  Shown (stats ∷ rest) ((group, shown) ∷ others) (n ∷ ns) =
      Shows J stats shown n × Shown rest others ns
  Shown _ _ _ = ⊥

  -- What the loop comes to, from the clients of before.
  record Tallied (stat_type : String) (es : List Json) (clients tag_map clients' tag_map' : Json)
      : Type 0 where
    added : List (String × Json)
    ns : List ℕ
    shown : Shown (typed_stats J stat_type es) added ns
    groups : tag_map' ≡ add_all J tag_map added
    number : length (entries clients') ≡ total ns + length (entries clients)
    keys :
        (k : String)
        → is_some (object_get_ex clients' k)
          ≡ (is_some (object_get_ex clients k) || contains k (client_nids J stat_type es))

  contains_cons :
      (k : String) (nid : Option String) (nids : List String)
      → contains k (cons_nid J nid nids) ≡ (contains k (cons_nid J nid []) || contains k nids)
  contains_cons k none nids = refl
  contains_cons k (some nid) nids = ground arith

  Tallied-other :
      (stat_type : String) (e : Json) (es : List Json) (clients tag_map clients' tag_map' : Json)
      → stats_of_type J stat_type e ≡ none
      → Tallied stat_type es clients tag_map clients' tag_map'
      → Tallied stat_type (e ∷ es) clients tag_map clients' tag_map'
  Tallied-other stat_type e es clients tag_map clients' tag_map' other r = record {
    added = r.added;
    ns = r.ns;
    shown =
        subst (λ l. Shown l r.added r.ns)
          (sym (ap (λ o. cons_stats J o (typed_stats J stat_type es)) other)) r.shown;
    groups = r.groups;
    number = r.number;
    keys = λ k.
        r.keys k
        ∙ ap
            (λ o.
              is_some (object_get_ex clients k)
              || contains k (cons_typed J o (nid_of J e) (client_nids J stat_type es)))
            (sym other);
  }

  -- An entry of the type adds its stats to its group.
  Tallied-typed :
      (stat_type : String) (e stats : Json) (es : List Json)
      (clients tag_map c m clients' tag_map' : Json) (group : String) (n : ℕ)
      → stats_of_type J stat_type e ≡ some stats
      → Counts J clients stats c (count_client J clients e stats).1 (nid_of J e) n
      → m ≡ add_stats J tag_map group (count_client J clients e stats).1
      → Tallied stat_type es c m clients' tag_map'
      → Tallied stat_type (e ∷ es) clients tag_map clients' tag_map'
  unfolding add_all
  Tallied-typed stat_type e stats es clients tag_map c m clients' tag_map' group n typed one put r =
      let nids = client_nids J stat_type es in
      record {
        added = (group, (count_client J clients e stats).1) ∷ r.added;
        ns = n ∷ r.ns;
        shown =
            subst (λ l. Shown l ((group, (count_client J clients e stats).1) ∷ r.added) (n ∷ r.ns))
              (sym (ap (λ o. cons_stats J o (typed_stats J stat_type es)) typed))
              (one.shows, r.shown);
        groups = r.groups ∙ ap (λ x. add_all J x r.added) put;
        number = omega (arith, r.number, one.grows);
        keys = λ k.
            ground (arith, r.keys k, one.keys k, contains_cons k (nid_of J e) nids)
            ∙ ap
                (λ o.
                  is_some (object_get_ex clients k)
                  || contains k (cons_typed J o (nid_of J e) nids))
                (sym typed);
      }

  aggregate_entry-Counts :
      (tag_tuple entry stats clients tag_map : Json) (s : Json × Json)
      → aggregate_entry J tag_tuple entry (clients, tag_map) stats ≡ some s
      → (group : String) × (n : ℕ) × Counts J clients stats s.0
          (count_client J clients entry stats).1
          (nid_of J entry)
          n
        × (s.1 ≡ add_stats J tag_map group (count_client J clients entry stats).1)
  unfolding aggregate_entry
  aggregate_entry-Counts tag_tuple entry stats clients tag_map s done =
      let (group, printed, same) =
        >>=-eq-some {B = Json × Json}
          (snprintf_format 256
            (to_json_string (select_tags J entry new_object (entries tag_tuple))))
          (λ group. some (
            (count_client J clients entry stats).0,
            add_stats J tag_map group (count_client J clients entry stats).1,
          ))
          done in
      let (n, c) = count_client-Counts J clients entry stats in
      let first : (count_client J clients entry stats).0 ≡ s.0 = ap (λ p. p.0) (some_inj same) in
      (
        group,
        n,
        subst
            (λ x.
              Counts J clients stats x (count_client J clients entry stats).1 (nid_of J entry) n)
            first c,
        sym (ap (λ p. p.1) (some_inj same)),
      )

  aggregate_entries-Tallied :
      (tag_tuple : Json) (stat_type : String) (clients tag_map clients' tag_map' : Json)
      (es : List Json)
      → aggregate_entries J tag_tuple stat_type (clients, tag_map) es ≡ some (clients', tag_map')
      → Tallied stat_type es clients tag_map clients' tag_map'
  unfolding aggregate_entries add_all
  aggregate_entries-Tallied tag_tuple stat_type clients tag_map clients' tag_map' [] done =
      let same = some_inj done in
      let c : clients ≡ clients' = ap (λ p. p.0) same in
      let t : tag_map ≡ tag_map' = ap (λ p. p.1) same in
      record {
        added = [];
        ns = [];
        shown = tt;
        groups = sym t;
        number = rw (← c) (omega arith);
        keys = λ k. rw (← c) (ground arith);
      }
  aggregate_entries-Tallied tag_tuple stat_type clients tag_map clients' tag_map' (e ∷ es) done =
      elim (Option-cases (stats_of_type J stat_type e)) [
        | inl other ↦
            let skipped =
              sym (
                ap
                  (λ o. aggregate_if J tag_tuple e (clients, tag_map) o >>= λ s.
                    aggregate_entries J tag_tuple stat_type s es)
                  other)
              ∙ done in
            Tallied-other stat_type e es clients tag_map clients' tag_map' other (
              aggregate_entries-Tallied tag_tuple stat_type clients tag_map clients' tag_map' es
                skipped)
        | inr (stats, typed) ↦
            let counted =
              sym (
                ap
                  (λ o. aggregate_if J tag_tuple e (clients, tag_map) o >>= λ s.
                    aggregate_entries J tag_tuple stat_type s es)
                  typed)
              ∙ done in
            let (s, one, rest) =
              >>=-eq-some (aggregate_entry J tag_tuple e (clients, tag_map) stats)
                (λ s. aggregate_entries J tag_tuple stat_type s es) counted in
            let (group, n, c, put) =
              aggregate_entry-Counts tag_tuple e stats clients tag_map s one in
            Tallied-typed stat_type e stats es clients tag_map s.0 s.1 clients' tag_map' group n
              typed c put
              (aggregate_entries-Tallied tag_tuple stat_type s.0 s.1 clients' tag_map' es rest)
      ]

  -- The clients of a server are counted once each, whatever groups their entries are in: where the
  -- loop goes through, it adds to the groups the stats of the entries of the type, in their order, each
  -- with a number of clients; these numbers sum to the number of the clients it has noted, which
  -- are those whose node id an entry of the type has.
  pub aggregate_entries-clients :
      (tag_tuple tag_map : Json) (stat_type : String) (es : List Json) (clients groups : Json)
      → aggregate_entries J tag_tuple stat_type (new_object, tag_map) es ≡ some (clients, groups)
      → (added : List (String × Json)) × (ns : List ℕ) × Shown (typed_stats J stat_type es) added ns
        × (groups ≡ add_all J tag_map added)
        × (length (entries clients) ≡ total ns)
        × ((nid : String)
            → is_some (object_get_ex clients nid) ≡ contains nid (client_nids J stat_type es))
  aggregate_entries-clients tag_tuple tag_map stat_type es clients groups done =
      let t =
        aggregate_entries-Tallied tag_tuple stat_type new_object tag_map clients groups es done in
      let none_yet : length (entries new_object) ≡ 0 = ap length J.entries-new_object in
      (
        t.added,
        t.ns,
        t.shown,
        t.groups,
        omega (arith, t.number, none_yet),
        λ nid.
            t.keys nid
            ∙ ap (λ o. is_some o || contains nid (client_nids J stat_type es))
                (object_get_ex-new_object J nid),
      )
