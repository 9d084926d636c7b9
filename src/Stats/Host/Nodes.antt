-- ===== src/Stats/Host/Nodes.antt =====
-- Node ids and the entries that they share: nid_map over update_host_entry and update_host_map.
use pfstrase.Prelude.{
  String, ◌≡◌, refl, Option, none, some, List, [], ◌∷◌, ◌==◌, eq_refl, arith, ◌⊎◌, or_else, lookup,
  lookup-insert, inl, inr, Option-cases, Bool-cases, if◌then◌else◌, negsuc,
}
use pfstrase.Json.{JsonC}
use pfstrase.Json.Objects.{object_get_ex-object_add}
use pfstrase.Stats.Host.{
  Maps, init_entry, update_entry, map_nid, host_name, update_host_entry, update_host_entries,
  update_host_map,
}
use pfstrase.Stats.Host.Entries.{
  field_of, field_before, reported, field_of-update_host_entry, init_entry-known,
}

module _ (J : JsonC) where
  open J use {Json, object_get_ex, object_add, get_string, items, is_array, tokener_parse}

  -- The field of the entry that a node id stands for.
  abbrev field_of_host : Maps J → Option String → String → Option Json
  field_of_host m none f = none
  field_of_host m (some h) f = field_of J m h f

  abbrev pub node_field : Maps J → String → String → Option Json
  node_field m nid f = field_of_host m (lookup nid m.nid_map) f

  -- The node id that an RPC assigns to its host.
  abbrev assigns : Option Json → Option Json → Option String
  assigns none (some tag) = some (get_string tag)
  assigns _ _ = none

  abbrev pub assigned : Json → Option String
  assigned rpc = assigns (object_get_ex rpc "data") (object_get_ex rpc "nid")

  abbrev pub assign : Option String → String → String → Option String → Option String
  assign none nid h old = old
  assign (some n) nid h old = if n == nid then some h else old

  lookup-map_nid :
      (rpc : Json) (h nid : String) (nids : List (String × String))
      → lookup nid (map_nid J rpc h nids) ≡ assign (assigned rpc) nid h (lookup nid nids)
  unfolding map_nid
  lookup-map_nid rpc h nid nids = elim (Option-cases (object_get_ex rpc "data")) [
    | inr (d, e) ↦ rw (e, map_nid)
    | inl e ↦ elim (Option-cases (object_get_ex rpc "nid")) [
      | inl e' ↦ rw (e, e', map_nid)
      | inr (t, e') ↦ rw (e, e', map_nid, lookup-insert)
    ]
  ]

  nid_map-init_entry : (m : Maps J) (h : String) → (init_entry J m h).nid_map ≡ m.nid_map
  unfolding init_entry
  nid_map-init_entry m h = elim (Option-cases (object_get_ex m.host_map h)) [
    | inl e ↦ rw (e, init_entry)
    | inr (x, e) ↦ rw (e, init_entry)
  ]

  nid_map-update_host_entry :
      (m : Maps J) (rpc tag : Json)
      → object_get_ex rpc "hostname" ≡ some tag
      → (update_host_entry J m rpc).0.nid_map ≡ map_nid J rpc (host_name J tag) m.nid_map
  unfolding update_host_entry update_entry
  nid_map-update_host_entry m rpc tag named =
      let (e, known, before, others) = init_entry-known J m (host_name J tag) in
      rw (named, update_host_entry, known, update_entry, nid_map-init_entry)

  pub node-update_host_entry :
      (m : Maps J) (rpc tag : Json)
      → object_get_ex rpc "hostname" ≡ some tag
      → (nid : String)
      → lookup nid (update_host_entry J m rpc).0.nid_map
        ≡ assign (assigned rpc) nid (host_name J tag) (lookup nid m.nid_map)
  node-update_host_entry m rpc tag named nid =
      rw (nid_map-update_host_entry m rpc tag named, lookup-map_nid)

  abbrev pub Known : Maps J → String → Type 0
  Known m h = (e : Json) × (object_get_ex m.host_map h ≡ some e)

  init_entry-Known : (m : Maps J) (h g : String) → Known m g → Known (init_entry J m h) g
  unfolding init_entry
  init_entry-Known m h g (e, known) = elim (Option-cases (object_get_ex m.host_map h)) [
    | inr (x, there) ↦ rw (there, init_entry) (e, known)
    | inl new ↦
        rw (new, init_entry, object_get_ex-object_add)
          (elim (Bool-cases (h == g)) [
            | inl same ↦ rw same (_, refl)
            | inr other ↦ rw other (e, known)
          ])
  ]

  update_entry-Known :
      (m : Maps J) (rpc : Json) (h g : String) → Known m g → Known (update_entry J rpc h m) g
  unfolding update_entry
  update_entry-Known m rpc h g (e, known) = elim (Option-cases (object_get_ex m.host_map h)) [
    | inl new ↦ rw (new, update_entry) (e, known)
    | inr (x, there) ↦
        rw (there, update_entry, object_get_ex-object_add)
          (elim (Bool-cases (h == g)) [
            | inl same ↦ rw same (_, refl)
            | inr other ↦ rw other (e, known)
          ])
  ]

  pub Known-update_host_entry :
      (m : Maps J) (rpc tag : Json)
      → object_get_ex rpc "hostname" ≡ some tag
      → Known (update_host_entry J m rpc).0 (host_name J tag)
  unfolding update_host_entry
  Known-update_host_entry m rpc tag named =
      let (e, known, before, others) = init_entry-known J m (host_name J tag) in
      rw (named, update_host_entry) (update_entry-Known _ rpc _ _ (e, known))

  update_host_entry-Known :
      (m : Maps J) (rpc : Json) (g : String) → Known m g → Known (update_host_entry J m rpc).0 g
  unfolding update_host_entry
  update_host_entry-Known m rpc g k = elim (Option-cases (object_get_ex rpc "hostname")) [
    | inl e ↦ rw (e, update_host_entry) k
    | inr (tag, e) ↦
        rw (e, update_host_entry) (update_entry-Known _ rpc _ g (init_entry-Known m _ g k))
  ]

  field_before-Known :
      (m : Maps J) (h f : String) → Known m h → field_before J m h f ≡ field_of J m h f
  field_before-Known m h f (e, known) = rw known

  stays : (o : Option String) (nid h h' : String) → h' ≡ h → assign o nid h' (some h) ≡ some h
  stays none nid h h' e = refl
  stays (some n) nid h h' e = ground (arith, e)

  -- A host that is named by two RPCs, of which the first assigns it a node id and carries no
  -- data: after the second, which may leave the id out, the node id shows the fields of both, the
  -- second one's first.
  pub node_field-update_host_entry :
      (m : Maps J) (first second tag tag' : Json) (nid : String)
      → object_get_ex first "hostname" ≡ some tag
      → object_get_ex second "hostname" ≡ some tag'
      → host_name J tag' ≡ host_name J tag
      → assigned first ≡ some nid
      → (f : String)
      → node_field (update_host_entry J (update_host_entry J m first).0 second).0 nid f
        ≡ or_else
            (reported J second f)
            (or_else (reported J first f) (field_before J m (host_name J tag) f))
  node_field-update_host_entry m first second tag tag' nid named named' same assigns f =
      let name = host_name J tag in
      let m' = (update_host_entry J m first).0 in
      let at_first : lookup nid m'.nid_map ≡ some name =
        rw (node-update_host_entry m first tag named nid, assigns, eq_refl) refl in
      rw
        (
          node-update_host_entry m' second tag' named' nid,
          at_first,
          stays (assigned second) nid name (host_name J tag') same,
          field_of-update_host_entry J m' second tag' named' name f,
          same,
          eq_refl,
          field_before-Known m' name f (Known-update_host_entry m first tag named),
          field_of-update_host_entry J m first tag named name f,
        )
        (rw eq_refl)

  -- Every node id stands for a host that has an entry.
  abbrev pub IsClosed : Maps J → Type 0
  IsClosed m = (nid h : String) → lookup nid m.nid_map ≡ some h → Known m h

  assigned_or_old :
      (o : Option String) (nid h g : String) (old : Option String)
      → assign o nid h old ≡ some g
      → (h ≡ g) ⊎ (old ≡ some g)
  assigned_or_old none nid h g old e = inr e
  assigned_or_old (some n) nid h g old e = ground arith

  -- An RPC that names no host changes nothing and returns -1.
  pub update_host_entry_unnamed :
      (m : Maps J) (rpc : Json)
      → object_get_ex rpc "hostname" ≡ none
      → update_host_entry J m rpc ≡ (m, negsuc 0)
  unfolding update_host_entry
  update_host_entry_unnamed m rpc e = rw (e, update_host_entry)

  update_host_entry-IsClosed :
      (m : Maps J) (rpc : Json) → IsClosed m → IsClosed (update_host_entry J m rpc).0
  update_host_entry-IsClosed m rpc closed nid h e =
      elim (Option-cases (object_get_ex rpc "hostname")) [
        | inl unnamed ↦
            rw (update_host_entry_unnamed m rpc unnamed)
              (closed nid h (rw (update_host_entry_unnamed m rpc unnamed) at e))
        | inr (tag, named) ↦
            elim (assigned_or_old (assigned rpc) nid (host_name J tag) h _
              (rw (node-update_host_entry m rpc tag named nid) at e)) [
                | inl here ↦ rw (← here) (Known-update_host_entry m rpc tag named)
                | inr old ↦ update_host_entry-Known m rpc h (closed nid h old)
              ]
      ]

  update_host_entries-IsClosed :
      (m : Maps J) (rpcs : List Json) → IsClosed m → IsClosed (update_host_entries J m rpcs)
  unfolding update_host_entries
  update_host_entries-IsClosed m [] closed = closed
  update_host_entries-IsClosed m (rpc ∷ rest) closed =
      update_host_entries-IsClosed (update_host_entry J m rpc).0 rest
        (update_host_entry-IsClosed m rpc closed)

  -- Whatever text arrives, a node id that stands for a host stands for one that has an entry.
  pub update_host_map-IsClosed :
      (m : Maps J) (rpc : String) → IsClosed m → IsClosed (update_host_map J m rpc).0
  unfolding update_host_map
  update_host_map-IsClosed m rpc closed = elim (Option-cases (tokener_parse rpc)) [
    | inl bad ↦ rw (bad, update_host_map) closed
    | inr (rpc_json, good) ↦
        rw (good, update_host_map)
          (elim (Bool-cases (is_array rpc_json)) [
            | inl many ↦ rw many (update_host_entries-IsClosed m (items rpc_json) closed)
            | inr one ↦ rw one (update_host_entry-IsClosed m rpc_json closed)
          ])
  ]
