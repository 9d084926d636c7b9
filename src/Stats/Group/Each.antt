-- ===== src/Stats/Group/Each.antt =====
-- group_statsbytags over all hosts: the loop treats each host as if it were alone.
use mathlib.Core.Path.{subst}
use pfstrase.Prelude.{
  String, ◌≡◌, refl, sym, ap, ◌∙◌, Option, none, some, List, [], ◌∷◌, ◌==◌, eq_iff, Absent,
  DistinctKeys, lookup, lookup-Absent, inl, inr, Bool-cases, ◌>>=◌, >>=-eq-some, some_inj,
  if◌then◌else◌,
}
use pfstrase.Json.{JsonC}
use pfstrase.Json.Objects.{object_get_ex-object_add}
use pfstrase.Stats.Host.{Maps}
use pfstrase.Stats.Group.{Outcome, publish, group_host, store_outcome, group_hosts}

module _ (J : JsonC) (group_tags : J.Json) where
  open J use {Json, object_get_ex, object_add, entries}

  -- What a round leaves of a host's entry, and of the groups that are published for it.
  abbrev pub entry_after : Json → Option Json
  entry_after entry = group_host J group_tags entry >>= λ outcome. some outcome.0

  abbrev pub newer : Option Json → Option Json → Option Json
  newer none old = old
  newer (some groups) old = some groups

  abbrev pub published_of : Option (Outcome J) → Option Json → Option Json
  published_of none old = old
  published_of (some outcome) old = newer outcome.1 old

  abbrev pub groups_after : Option Json → Option Json → Option Json
  groups_after none old = old
  groups_after (some entry) old = published_of (group_host J group_tags entry) old

  abbrev visited : Option Json → Option Json → Option Json
  visited none old = old
  visited (some entry) old = entry_after entry

  publish-newer :
      (rates : Json) (key h : String) (groups : Option Json)
      → object_get_ex (publish J rates key groups) h
        ≡ (if key == h then newer groups (object_get_ex rates h) else object_get_ex rates h)
  publish-newer rates key h none = elim (Bool-cases (key == h)) [
    | inl e ↦ rw e refl
    | inr e ↦ rw e refl
  ]
  publish-newer rates key h (some groups) = object_get_ex-object_add J rates key groups h

  -- The two maps at a host, after the loop over some entries.
  record Visits (es : List (String × Json)) (current m' : Maps J) (h : String) : Type 0 where
    host : object_get_ex m'.host_map h ≡ visited (lookup h es) (object_get_ex current.host_map h)
    groups :
        object_get_ex m'.server_tag_rate_map h
        ≡ groups_after (lookup h es) (object_get_ex current.server_tag_rate_map h)

  group_hosts-Visits :
      (current m' : Maps J) (es : List (String × Json)) (h : String)
      → DistinctKeys es
      → group_hosts J group_tags current es ≡ some m'
      → Visits es current m' h
  unfolding group_hosts lookup store_outcome
  group_hosts-Visits current m' [] h d done = record {
    host = ap (λ n. object_get_ex n.host_map h) (sym (some_inj done));
    groups = ap (λ n. object_get_ex n.server_tag_rate_map h) (sym (some_inj done));
  }
  group_hosts-Visits current m' ((key, entry) ∷ es) h d done =
      let (outcome, ran, rest) =
        >>=-eq-some (group_host J group_tags entry)
          (λ o. group_hosts J group_tags (store_outcome J current key o) es) done in
      let next = store_outcome J current key outcome in
      let later = group_hosts-Visits next m' es h d.1 rest in
      elim (Bool-cases (key == h)) [
        | inl e ↦
            let same : key ≡ h = (eq_iff key h).0 e in
            let gone : lookup h es ≡ none =
              lookup-Absent h es (subst (λ k. Absent k es) same d.0) in
            let put : object_get_ex next.host_map h ≡ some outcome.0 =
              rw (object_get_ex-object_add, e) refl in
            let shown : object_get_ex next.server_tag_rate_map h
                ≡ newer outcome.1 (object_get_ex current.server_tag_rate_map h) =
              publish-newer current.server_tag_rate_map key h outcome.1 ∙ rw e refl in
            record {
              host = rw e (
                  later.host
                  ∙ ap (λ o. visited o (object_get_ex next.host_map h)) gone
                  ∙ put
                  ∙ ap (λ o. o >>= λ p. some p.0) (sym ran));
              groups = rw e (
                  later.groups
                  ∙ ap (λ o. groups_after o (object_get_ex next.server_tag_rate_map h)) gone
                  ∙ shown
                  ∙ ap (λ o. published_of o (object_get_ex current.server_tag_rate_map h))
                      (sym ran));
            }
        | inr e ↦
            let kept : object_get_ex next.host_map h ≡ object_get_ex current.host_map h =
              rw (object_get_ex-object_add, e) refl in
            let shown : object_get_ex next.server_tag_rate_map h
                ≡ object_get_ex current.server_tag_rate_map h =
              publish-newer current.server_tag_rate_map key h outcome.1 ∙ rw e refl in
            record {
              host = rw e (later.host ∙ ap (visited (lookup h es)) kept);
              groups = rw e (later.groups ∙ ap (groups_after (lookup h es)) shown);
            }
      ]

  visited_own : (o : Option Json) → visited o o ≡ (o >>= entry_after)
  visited_own none = refl
  visited_own (some entry) = refl

  -- The loop over all hosts: every host is treated as if it were the only one, and the groups of a
  -- host are replaced where its round has made new ones. No two hosts share a name.
  pub group_hosts-hosts :
      (m m' : Maps J)
      → DistinctKeys (entries m.host_map)
      → group_hosts J group_tags m (entries m.host_map) ≡ some m'
      → (h : String)
      → (object_get_ex m'.host_map h ≡ (object_get_ex m.host_map h >>= entry_after))
        × (object_get_ex m'.server_tag_rate_map h
            ≡ groups_after (object_get_ex m.host_map h) (object_get_ex m.server_tag_rate_map h))
  group_hosts-hosts m m' d done h =
      let v = group_hosts-Visits m m' (entries m.host_map) h d done in
      let own = sym (J.object_get_ex-entries m.host_map h) in
      (
        v.host
            ∙ ap (λ o. visited o (object_get_ex m.host_map h)) own
            ∙ visited_own (object_get_ex m.host_map h),
        v.groups ∙ ap (λ o. groups_after o (object_get_ex m.server_tag_rate_map h)) own,
      )
