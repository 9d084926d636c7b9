-- ===== src/Stats/Tag/Data.antt =====
-- The data of a host, once tag_stats has tagged them.
use mathlib.Core.Path.{subst}
use pfstrase.Prelude.{
  String, ◌≡◌, refl, sym, ap, ◌∙◌, none, some, List, [], ◌∷◌, ◌++◌, DistinctKeys, inl, inr,
  Option-cases, ◌>>=◌, >>=-eq-some, some_inj,
}
use pfstrase.Json.{JsonC}
use pfstrase.Json.Objects.{object_get_ex-object_add, array_from, items-array_from}
use pfstrase.Stats.Host.{Maps}
use pfstrase.Stats.Host.Entries.{field_of, field_in}
use pfstrase.Stats.Tag.{tag_entry, tag_entries, tag_host, tag_stats}
use pfstrase.Stats.Tag.Fields.{IsTagged, tag_entry-IsTagged}
use pfstrase.Stats.Tag.Each.{tag_stats-hosts}
use pfstrase.Shm.Closed.{tag_hosts-Extends}

module _ (J : JsonC) where
  open J use {Json, object_get_ex, object_add, new_string, get_string, entries, items, new_array}

  -- Every entry of a client's node id is tagged with its names.
  abbrev pub Tagged : Maps J → Json → List Json → List Json → Type 0
  Tagged m host [] [] = Unit
  Tagged m host (entry ∷ es) (tagged ∷ ts) =
      ((nid : Json)
        → object_get_ex entry "client_nid" ≡ some nid
        → IsTagged J m host nid entry tagged)
      × (object_get_ex tagged "client_nid" ≡ object_get_ex entry "client_nid")
      × Tagged m host es ts
  Tagged m host _ _ = ⊥

  client_nid-tag_entry :
      (m : Maps J) (host entry tagged : Json)
      → tag_entry J m host entry ≡ some tagged
      → object_get_ex tagged "client_nid" ≡ object_get_ex entry "client_nid"
  unfolding tag_entry
  client_nid-tag_entry m host entry tagged done =
      elim (Option-cases (object_get_ex entry "client_nid")) [
        | inr (nid, from) ↦
            (tag_entry-IsTagged J m host nid entry tagged from done).0.others "client_nid" refl
        | inl none_there ↦
            let owned : object_get_ex (object_add entry "server" host) "client_nid" ≡ none =
              simp object_get_ex-object_add none_there in
            let same : object_add entry "server" host ≡ tagged =
              some_inj (rw (owned, tag_entry) at done) in
            rw (← same) (simp object_get_ex-object_add)
      ]

  tag_entries-Tagged :
      (m : Maps J) (host : Json) (es ts : List Json)
      → tag_entries J m host es ≡ some ts
      → Tagged m host es ts
  unfolding tag_entries
  tag_entries-Tagged m host [] ts done = subst (Tagged m host []) (some_inj done) tt
  tag_entries-Tagged m host (entry ∷ es) ts done =
      let (tagged, first, more) =
        >>=-eq-some {B = List Json} (tag_entry J m host entry)
          (λ t. tag_entries J m host es >>= λ others. some (t ∷ others)) done in
      let (others, rest, all) =
        >>=-eq-some {B = List Json} (tag_entries J m host es) (λ others. some (tagged ∷ others))
          more in
      subst (Tagged m host (entry ∷ es)) (some_inj all) (
        λ nid from. (tag_entry-IsTagged J m host nid entry tagged from first).0,
        client_nid-tag_entry m host entry tagged first,
        tag_entries-Tagged m host es others rest,
      )

  -- The data of a host, once it is tagged.
  pub data-tag_host :
      (m : Maps J) (key : String) (entry array tagged : Json)
      → object_get_ex entry "data" ≡ some array
      → tag_host J m key entry ≡ some tagged
      → (after : Json) × (object_get_ex tagged "data" ≡ some after)
        × Tagged m (new_string key) (items array) (items after)
  unfolding tag_host
  data-tag_host m key entry array tagged there done =
      let (ts, ran, last) =
        >>=-eq-some (tag_entries J m (new_string key) (items array))
          (λ ts. some (object_add entry "data" (array_from J new_array ts)))
          (rw (there, tag_host) at done) in
      let whole : ts ≡ items (array_from J new_array ts) =
        sym (items-array_from J new_array ts ∙ ap (λ l. l ++ ts) J.items-new_array) in
      (
        array_from J new_array ts,
        subst (λ t. object_get_ex t "data" ≡ some (array_from J new_array ts)) (some_inj last)
            (simp object_get_ex-object_add),
        subst (Tagged m (new_string key) (items array)) whole
            (tag_entries-Tagged m (new_string key) (items array) ts ran),
      )

  -- tag_stats over the data of one host.
  pub data-tag_stats :
      (m m' : Maps J) (h : String) (array : Json)
      → DistinctKeys (entries m.host_map)
      → tag_stats J m ≡ some m'
      → field_of J m h "data" ≡ some array
      → (after : Json) × (field_of J m' h "data" ≡ some after)
        × Tagged m (new_string h) (items array) (items after)
  unfolding tag_stats
  data-tag_stats m m' h array d done there = elim (Option-cases (object_get_ex m.host_map h)) [
    | inl unknown ↦
        let never : none ≡ some array = sym (ap (λ o. field_in J none o "data") unknown) ∙ there in
        cc
    | inr (entry, known) ↦
        let own : object_get_ex entry "data" ≡ some array =
          sym (ap (λ o. field_in J none o "data") known) ∙ there in
        let (tagged, known') =
          (tag_hosts-Extends J (entries m.host_map) m m' done).known h (entry, known) in
        let ran : tag_host J m h entry ≡ some tagged =
          sym (tag_stats-hosts J m m' d done h ∙ ap (λ o. o >>= λ e. tag_host J m h e) known)
          ∙ known' in
        let (after, shown, all) = data-tag_host m h entry array tagged own ran in
        (after, ap (λ o. field_in J none o "data") known' ∙ shown, all)
  ]
