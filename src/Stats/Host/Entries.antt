-- ===== src/Stats/Host/Entries.antt =====
-- What update_host_entry leaves in the entry of its host, and in the entries of all others.
use pfstrase.Prelude.{
  String, ◌≡◌, refl, false, Option, none, some, List, [], ◌∷◌, ◌==◌, eq_iff, eq_refl, arith,
  or_else, lookup, lookup-Absent, DistinctKeys, inl, inr, Option-cases, Bool-cases, if◌then◌else◌,
}
use pfstrase.Json.{JsonC}
use pfstrase.Json.Objects.{
  object_get_ex-object_add, copy_tag, object_get_ex-copy_tag, object_get_ex-new_object,
}
use pfstrase.Stats.Host.{
  Maps, new_entry, init_entry, copy_tags, update_entry, host_name, update_host_entry,
}

-- The fields of an entry that an RPC sets, each with the field of the RPC that it is read from.
abbrev pub copied : List (String × String)
copied =
    ("time", "time")
    ∷ ("hid", "hostname")
    ∷ ("system", "system")
    ∷ ("jid", "jid")
    ∷ ("uid", "uid")
    ∷ ("obdclass", "obdclass")
    ∷ ("data", "data")
    ∷ []

abbrev pub entry_of_new_host : String → Option String
entry_of_new_host f = if "jid" == f then some "*" else if "uid" == f then some "*" else none

module _ (J : JsonC) where
  open J use {Json, object_get_ex, object_add, new_string}

  abbrev fetch : Json → Option String → Option Json
  fetch rpc none = none
  fetch rpc (some key) = object_get_ex rpc key

  -- What an RPC reports for a field of the entry.
  abbrev pub reported : Json → String → Option Json
  reported rpc f = fetch rpc (lookup f copied)

  copy_all : Json → List (String × String) → Json → Json
  copy_all rpc [] entry = entry
  copy_all rpc ((field, key) ∷ t) entry = copy_all rpc t (copy_tag J rpc key field entry)

  object_get_ex-copy_all :
      (rpc : Json) (t : List (String × String)) (entry : Json) (f : String)
      → DistinctKeys t
      → object_get_ex (copy_all rpc t entry) f
        ≡ or_else (fetch rpc (lookup f t)) (object_get_ex entry f)
  unfolding copy_all lookup
  object_get_ex-copy_all rpc [] entry f h = refl
  object_get_ex-copy_all rpc ((field, key) ∷ t) entry f h =
      rw
        (
          object_get_ex-copy_all rpc t (copy_tag J rpc key field entry) f h.1,
          object_get_ex-copy_tag,
        )
        (elim (Bool-cases (field == f)) [
          | inl e ↦ let away = lookup-Absent f t (rw ((eq_iff field f).0 e) at h.0) in rw (e, away)
          | inr e ↦ rw e
        ])

  copied-DistinctKeys : DistinctKeys copied
  copied-DistinctKeys = ground arith

  pub object_get_ex-copy_tags :
      (rpc entry : Json) (f : String)
      → object_get_ex (copy_tags J rpc entry) f ≡ or_else (reported rpc f) (object_get_ex entry f)
  unfolding copy_tags copy_all
  object_get_ex-copy_tags rpc entry f =
      object_get_ex-copy_all rpc copied entry f copied-DistinctKeys

  abbrev pub field_in : Option Json → Option Json → String → Option Json
  field_in fallback none f = fallback
  field_in fallback (some e) f = object_get_ex e f

  -- The field of a host's entry, if the host and the field are there.
  abbrev pub field_of : Maps J → String → String → Option Json
  field_of m h f = field_in none (object_get_ex m.host_map h) f

  abbrev default_field : Option String → Option Json
  default_field none = none
  default_field (some s) = some (new_string s)

  -- The field before an RPC is applied: that of a new entry, where the host is not known yet.
  abbrev pub field_before : Maps J → String → String → Option Json
  field_before m h f = field_in (default_field (entry_of_new_host f)) (object_get_ex m.host_map h) f

  object_get_ex-new_entry :
      (f : String) → object_get_ex (new_entry J) f ≡ default_field (entry_of_new_host f)
  unfolding new_entry
  object_get_ex-new_entry f =
      simp (object_get_ex-object_add, object_get_ex-new_object)
        (ground (arith, eq_iff "jid" f, eq_iff "uid" f))

  module _ (m : Maps J) (rpc : Json) (h : String) where
    -- The step from the maps with the entry in place.
    update_known :
        (e : Json)
        → object_get_ex m.host_map h ≡ some e
        → (g f : String)
        → field_of (update_entry J rpc h m) g f
          ≡ (if h == g then or_else (reported rpc f) (object_get_ex e f) else field_of m g f)
    unfolding update_entry
    update_known e known g f =
        rw (known, update_entry, object_get_ex-object_add)
          (elim (Bool-cases (h == g)) [
            | inl same ↦ rw same (object_get_ex-copy_tags rpc e f)
            | inr other ↦ rw other
          ])

  -- The entry is there once it is initialised, and no other is touched.
  pub init_entry-known :
      (m : Maps J) (h : String)
      → (e : Json) × (object_get_ex (init_entry J m h).host_map h ≡ some e)
        × ((f : String) → object_get_ex e f ≡ field_before m h f)
        × ((g : String)
            → (h == g) ≡ false
            → (f : String) → field_of (init_entry J m h) g f ≡ field_of m g f)
  unfolding init_entry
  init_entry-known m h = elim (Option-cases (object_get_ex m.host_map h)) [
    | inl new ↦
        rw (new, init_entry)
          (
            new_entry J,
            rw (object_get_ex-object_add, eq_refl),
            object_get_ex-new_entry,
            λ g other f. rw (object_get_ex-object_add, other),
          )
    | inr (e, known) ↦ rw (known, init_entry) (e, known, λ f. refl, λ g other f. refl)
  ]

  -- An RPC that names its host sets the fields that it reports in the entry of that host, keeps
  -- the other fields of the entry, which for a host that was not known are jid and uid "*", and
  -- leaves every field of every other host.
  pub field_of-update_host_entry :
      (m : Maps J) (rpc tag : Json)
      → object_get_ex rpc "hostname" ≡ some tag
      → (h f : String)
      → field_of (update_host_entry J m rpc).0 h f ≡ (
          if host_name J tag == h
          then or_else (reported rpc f) (field_before m h f)
          else field_of m h f)
  unfolding update_host_entry
  field_of-update_host_entry m rpc tag named h f =
      let name = host_name J tag in
      let (e, known, before, others) = init_entry-known m name in
      rw (named, update_host_entry, update_known (init_entry J m name) rpc name e known h f)
        (elim (Bool-cases (name == h)) [
          | inl same ↦ rw (same, before f, (eq_iff name h).0 same) refl
          | inr other ↦ rw other (others h other f)
        ])
