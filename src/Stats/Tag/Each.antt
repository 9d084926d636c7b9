-- ===== src/Stats/Tag/Each.antt =====
-- tag_stats over all hosts: the loop tags each host as if it were alone.
use mathlib.Core.Path.{subst}
use pfstrase.Prelude.{
  String, ◌≡◌, refl, sym, ap, ◌∙◌, false, Option, none, some, List, [], ◌∷◌, ◌==◌, eq_iff, Absent,
  DistinctKeys, lookup, lookup-Absent, inl, inr, Option-cases, Bool-cases, ◌>>=◌, >>=-eq-some,
  some_inj,
}
use pfstrase.Json.{JsonC}
use pfstrase.Json.Objects.{object_get_ex-object_add, copy_tag}
use pfstrase.Stats.Host.{Maps}
use pfstrase.Stats.Tag.{
  nid_entry, name_client, tag_client, tag_filesystem, tag_entry, tag_entries, tag_host, tag_hosts,
  tag_stats,
}
use pfstrase.Stats.Tag.Hosts.{object_get_ex-tag_host, Pending, Pending-entries}

module _ (J : JsonC) where
  open J use {Json, object_get_ex, object_add, new_string, get_string, entries, items, new_array}

  -- Two entries that differ in their data at most.
  abbrev AlikeEntries : Option Json → Option Json → Type 0
  AlikeEntries none none = Unit
  AlikeEntries none (some e) = ⊥
  AlikeEntries (some e) none = ⊥
  AlikeEntries (some e) (some e') =
      (f : String) → ("data" == f) ≡ false → object_get_ex e f ≡ object_get_ex e' f

  -- Maps that agree on everything but the data of the hosts.
  record Alike (m m' : Maps J) : Type 0 where
    nids : m.nid_map ≡ m'.nid_map
    hosts : (h : String) → AlikeEntries (object_get_ex m.host_map h) (object_get_ex m'.host_map h)

  AlikeEntries-refl : (o : Option Json) → AlikeEntries o o
  AlikeEntries-refl none = tt
  AlikeEntries-refl (some e) = λ f other. refl

  nid_entry-Alike :
      (m m' : Maps J) (nid : String)
      → Alike m m'
      → AlikeEntries (nid_entry J m nid) (nid_entry J m' nid)
  unfolding nid_entry
  nid_entry-Alike m m' nid h = elim (Option-cases (lookup nid m'.nid_map)) [
    | inl e ↦ rw (h.nids, e) tt
    | inr (host, e) ↦ rw (h.nids, e) (h.hosts host)
  ]

  copy_tag-same :
      (from from' : Json) (key field : String) (to : Json)
      → object_get_ex from key ≡ object_get_ex from' key
      → copy_tag J from key field to ≡ copy_tag J from' key field to
  unfolding copy_tag
  copy_tag-same from from' key field to e = rw (e, copy_tag) refl

  name_client-AlikeEntries :
      (o o' : Option Json) (marked : Json)
      → AlikeEntries o o'
      → name_client J o marked ≡ name_client J o' marked
  name_client-AlikeEntries none none marked h = refl
  name_client-AlikeEntries none (some e') marked h = elim h [ ]
  name_client-AlikeEntries (some e) none marked h = elim h [ ]
  name_client-AlikeEntries (some e) (some e') marked h =
      let hid = copy_tag-same e e' "hid" "client" marked (h "hid" refl) in
      let named = copy_tag J e' "hid" "client" marked in
      let system = copy_tag-same e e' "system" "system" named (h "system" refl) in
      let placed = copy_tag J e' "system" "system" named in
      let jid = copy_tag-same e e' "jid" "jid" placed (h "jid" refl) in
      rw (hid, system, jid)
        (copy_tag-same e e' "uid" "uid" (copy_tag J e' "jid" "jid" placed) (h "uid" refl))

  tag_client-Alike :
      (m m' : Maps J) (nid entry : Json)
      → Alike m m'
      → tag_client J m nid entry ≡ tag_client J m' nid entry
  unfolding tag_client
  tag_client-Alike m m' nid entry h =
      name_client-AlikeEntries (nid_entry J m (get_string nid)) (nid_entry J m' (get_string nid)) _
        (nid_entry-Alike m m' (get_string nid) h)

  tag_entry-Alike :
      (m m' : Maps J) (server entry : Json)
      → Alike m m'
      → tag_entry J m server entry ≡ tag_entry J m' server entry
  unfolding tag_entry
  tag_entry-Alike m m' server entry h =
      let owned = object_add entry "server" server in
      elim (Option-cases (object_get_ex owned "client_nid")) [
        | inl e ↦ rw (e, tag_entry) refl
        | inr (nid, e) ↦
            rw (e, tag_entry) (ap (tag_filesystem J) (tag_client-Alike m m' nid owned h))
      ]

  tag_entries-Alike :
      (m m' : Maps J) (server : Json) (es : List Json)
      → Alike m m'
      → tag_entries J m server es ≡ tag_entries J m' server es
  unfolding tag_entries
  tag_entries-Alike m m' server [] h = refl
  tag_entries-Alike m m' server (entry ∷ rest) h =
      rw (tag_entry-Alike m m' server entry h, tag_entries-Alike m m' server rest h) refl

  tag_host-Alike :
      (m m' : Maps J) (key : String) (entry : Json)
      → Alike m m'
      → tag_host J m key entry ≡ tag_host J m' key entry
  unfolding tag_host
  tag_host-Alike m m' key entry h = elim (Option-cases (object_get_ex entry "data")) [
    | inl e ↦ rw (e, tag_host) refl
    | inr (array, e) ↦
        rw (e, tag_host, tag_entries-Alike m m' (new_string key) (items array) h) refl
  ]

  -- A host that was tagged differs in its data only.
  Alike-object_add :
      (m m' : Maps J) (key : String) (entry tagged : Json)
      → object_get_ex m'.host_map key ≡ some entry
      → tag_host J m' key entry ≡ some tagged
      → Alike m m'
      → Alike (record m { host_map = object_add m.host_map key tagged }) m'
  Alike-object_add m m' key entry tagged there ran h = record {
    nids = h.nids;
    hosts = λ g. elim (Bool-cases (key == g)) [
      | inl e ↦
          let at_g : object_get_ex m'.host_map g ≡ some entry =
            ap (object_get_ex m'.host_map) (sym ((eq_iff key g).0 e)) ∙ there in
          rw (object_get_ex-object_add, e, at_g) (object_get_ex-tag_host J m' key entry tagged ran)
      | inr e ↦ rw (object_get_ex-object_add, e) (h.hosts g)
    ];
  }

  -- What the loop leaves of a host, by its entry among those to be visited.
  abbrev visited : Maps J → String → Option Json → Option Json → Option Json
  visited m h none old = old
  visited m h (some entry) old = tag_host J m h entry

  visited_own :
      (m : Maps J) (h : String) (o : Option Json)
      → visited m h o o ≡ (o >>= λ entry. tag_host J m h entry)
  visited_own m h none = refl
  visited_own m h (some entry) = refl

  tag_hosts-visited :
      (m current m' : Maps J) (es : List (String × Json)) (h : String)
      → Pending J m.host_map es
      → DistinctKeys es
      → Alike current m
      → tag_hosts J current es ≡ some m'
      → object_get_ex m'.host_map h ≡ visited m h (lookup h es) (object_get_ex current.host_map h)
  unfolding tag_hosts lookup
  tag_hosts-visited m current m' [] h p d alike done =
      ap (λ n. object_get_ex n.host_map h) (sym (some_inj done))
  tag_hosts-visited m current m' ((key, entry) ∷ es) h p d alike done =
      let (tagged, ran, rest) =
        >>=-eq-some (tag_host J current key entry)
          (λ t. tag_hosts J (record current { host_map = object_add current.host_map key t }) es)
          done in
      let alone : tag_host J m key entry ≡ some tagged =
        sym (tag_host-Alike current m key entry alike) ∙ ran in
      let next : Maps J = record current { host_map = object_add current.host_map key tagged } in
      let later =
        tag_hosts-visited m next m' es h p.1 d.1
          (Alike-object_add current m key entry tagged p.0 alone alike) rest in
      elim (Bool-cases (key == h)) [
        | inl e ↦
            let same : key ≡ h = (eq_iff key h).0 e in
            let gone : lookup h es ≡ none =
              lookup-Absent h es (subst (λ k. Absent k es) same d.0) in
            let put : object_get_ex next.host_map h ≡ some tagged =
              rw (object_get_ex-object_add, e) refl in
            rw e (
              later
              ∙ ap (λ o. visited m h o (object_get_ex next.host_map h)) gone
              ∙ put
              ∙ sym alone
              ∙ ap (λ k. tag_host J m k entry) same)
        | inr e ↦
            let kept : object_get_ex next.host_map h ≡ object_get_ex current.host_map h =
              rw (object_get_ex-object_add, e) refl in
            rw e (later ∙ ap (visited m h (lookup h es)) kept)
      ]

  -- tag_stats tags every host as if it were the only one: whatever it has done to the hosts
  -- before, the data of a host are tagged entry by entry with the names that the nodes had at the start,
  -- under the name of the host, and the rest of its entry stays as it was. No two hosts share a
  -- name, and no write leaves its buffer.
  pub tag_stats-hosts :
      (m m' : Maps J)
      → DistinctKeys (entries m.host_map)
      → tag_stats J m ≡ some m'
      → (h : String)
      → object_get_ex m'.host_map h ≡ (object_get_ex m.host_map h >>= λ entry. tag_host J m h entry)
  unfolding tag_stats
  tag_stats-hosts m m' d done h =
      let alike : Alike m m = record {
        nids = refl;
        hosts = λ g. AlikeEntries-refl (object_get_ex m.host_map g);
      } in
      let loop =
        tag_hosts-visited m m m' (entries m.host_map) h (Pending-entries J m.host_map d) d alike
          done in
      loop
      ∙ ap (λ o. visited m h o (object_get_ex m.host_map h))
          (sym (J.object_get_ex-entries m.host_map h))
      ∙ visited_own m h (object_get_ex m.host_map h)
