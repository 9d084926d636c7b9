-- ===== src/Stats/Tag/Hosts.antt =====
-- tag_stats over all hosts: what it does not touch.
use mathlib.Core.Path.{fun_ext}
use pfstrase.Prelude.{
  String, ◌≡◌, false, some, List, [], ◌∷◌, ◌==◌, eq_iff, arith, All, Absent, DistinctKeys,
  lookup_own, inl, inr, Option-cases, Bool-cases, >>=-eq-some, some_inj, ◌∙◌,
}
use pfstrase.Json.{JsonC}
use pfstrase.Json.Objects.{object_get_ex-object_add, array_from}
use pfstrase.Stats.Host.{Maps}
use pfstrase.Stats.Host.Entries.{field_of}
use pfstrase.Stats.Tag.{tag_entries, tag_host, tag_hosts, tag_stats}

module _ (J : JsonC) where
  open J use {Json, object_get_ex, object_add, new_string, entries, items, new_array}

  pub object_get_ex-tag_host :
      (m : Maps J) (key : String) (entry tagged : Json)
      → tag_host J m key entry ≡ some tagged
      → (f : String) → ("data" == f) ≡ false
      → object_get_ex tagged f ≡ object_get_ex entry f
  unfolding tag_host
  object_get_ex-tag_host m key entry tagged done f other =
      elim (Option-cases (object_get_ex entry "data")) [
        | inl e ↦ let same : entry ≡ tagged = some_inj (rw (e, tag_host) at done) in rw (← same)
        | inr (array, e) ↦
            let (es, ran, last) =
              >>=-eq-some (tag_entries J m (new_string key) (items array))
                (λ es. some (object_add entry "data" (array_from J new_array es)))
                (rw (e, tag_host) at done) in
            let same : object_add entry "data" (array_from J new_array es) ≡ tagged =
              some_inj last in
            rw (← same, object_get_ex-object_add, other)
      ]

  -- The entries still to be visited are those that the map holds.
  abbrev pub Pending : Json → List (String × Json) → Type 0
  Pending map = All (λ e. object_get_ex map e.0 ≡ some e.1)

  pub Pending-object_add :
      (map : Json) (key : String) (v : Json) (es : List (String × Json))
      → Absent key es
      → Pending map es
      → Pending (object_add map key v) es
  Pending-object_add map key v [] a p = tt
  Pending-object_add map key v ((k, e) ∷ es) a p = (
    rw object_get_ex-object_add (ground (arith, eq_iff key k, eq_iff k key)),
    Pending-object_add map key v es a.1 p.1,
  )

  field_of_write :
      (m : Maps J) (key : String) (entry tagged : Json)
      → object_get_ex m.host_map key ≡ some entry
      → (f : String) → object_get_ex tagged f ≡ object_get_ex entry f
      → (h : String)
      → field_of J (record m { host_map = object_add m.host_map key tagged }) h f ≡ field_of J m h f
  field_of_write m key entry tagged there f same h =
      rw object_get_ex-object_add (elim (Bool-cases (key == h)) [
        | inl e ↦ let at_h : key ≡ h = (eq_iff key h).0 e in rw (e, ← at_h, there) same
        | inr e ↦ rw e
      ])

  field_of-tag_hosts :
      (m : Maps J) (es : List (String × Json)) (m' : Maps J)
      → Pending m.host_map es
      → DistinctKeys es
      → tag_hosts J m es ≡ some m'
      → (h f : String) → ("data" == f) ≡ false
      → field_of J m' h f ≡ field_of J m h f
  unfolding tag_hosts
  field_of-tag_hosts m [] m' p d done h f other = let same : m ≡ m' = some_inj done in rw (← same)
  field_of-tag_hosts m ((key, entry) ∷ es) m' p d done h f other =
      let (tagged, ran, rest) =
        >>=-eq-some (tag_host J m key entry)
          (λ t. tag_hosts J (record m { host_map = object_add m.host_map key t }) es) done in
      let next : Maps J = record m { host_map = object_add m.host_map key tagged } in
      field_of-tag_hosts next es m' (Pending-object_add m.host_map key tagged es d.0 p.1) d.1 rest h
        f other
      ∙ field_of_write m key entry tagged p.0 f
          (object_get_ex-tag_host m key entry tagged ran f other) h

  pub Pending-entries : (map : Json) → DistinctKeys (entries map) → Pending map (entries map)
  Pending-entries map d = rw (fun_ext (J.object_get_ex-entries map)) (lookup_own (entries map) d)

  -- Tagging that writes within its buffers changes no field of any host but its data, where no
  -- two hosts share a name.
  pub field_of-tag_stats :
      (m m' : Maps J)
      → DistinctKeys (entries m.host_map)
      → tag_stats J m ≡ some m'
      → (h f : String) → ("data" == f) ≡ false
      → field_of J m' h f ≡ field_of J m h f
  unfolding tag_stats
  field_of-tag_stats m m' d done =
      field_of-tag_hosts m (entries m.host_map) m' (Pending-entries m.host_map d) d done
