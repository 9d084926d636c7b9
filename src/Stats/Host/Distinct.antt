-- ===== src/Stats/Host/Distinct.antt =====
-- The names of the hosts stay distinct.
use pfstrase.Prelude.{
  String, List, [], ◌∷◌, DistinctKeys, insert-DistinctKeys, inl, inr, Option-cases, Bool-cases,
}
use pfstrase.Json.{JsonC}
use pfstrase.Stats.Host.{
  Maps, init_entry, update_entry, host_name, update_host_entry, update_host_entries,
  update_host_map,
}

module _ (J : JsonC) where
  open J use {Json, object_get_ex, object_add, entries, items, is_array, tokener_parse}

  -- No two hosts share a name.
  abbrev pub HasDistinct : Maps J → Type 0
  HasDistinct m = DistinctKeys (entries m.host_map)

  pub object_add-DistinctKeys :
      (o : Json) (k : String) (v : Json)
      → DistinctKeys (entries o)
      → DistinctKeys (entries (object_add o k v))
  object_add-DistinctKeys o k v d =
      rw (J.entries-object_add o k v) (insert-DistinctKeys k v (entries o) d)

  init_entry-HasDistinct :
      (m : Maps J) (h : String) → HasDistinct m → HasDistinct (init_entry J m h)
  unfolding init_entry
  init_entry-HasDistinct m h d = elim (Option-cases (object_get_ex m.host_map h)) [
    | inl e ↦ rw (e, init_entry) (object_add-DistinctKeys m.host_map h _ d)
    | inr (x, e) ↦ rw (e, init_entry) d
  ]

  update_entry-HasDistinct :
      (m : Maps J) (rpc : Json) (h : String) → HasDistinct m → HasDistinct (update_entry J rpc h m)
  unfolding update_entry
  update_entry-HasDistinct m rpc h d = elim (Option-cases (object_get_ex m.host_map h)) [
    | inl e ↦ rw (e, update_entry) d
    | inr (x, e) ↦ rw (e, update_entry) (object_add-DistinctKeys m.host_map h _ d)
  ]

  update_host_entry-HasDistinct :
      (m : Maps J) (rpc : Json) → HasDistinct m → HasDistinct (update_host_entry J m rpc).0
  unfolding update_host_entry
  update_host_entry-HasDistinct m rpc d = elim (Option-cases (object_get_ex rpc "hostname")) [
    | inl e ↦ rw (e, update_host_entry) d
    | inr (tag, e) ↦
        rw (e, update_host_entry)
          (update_entry-HasDistinct (init_entry J m (host_name J tag)) rpc (host_name J tag)
            (init_entry-HasDistinct m (host_name J tag) d))
  ]

  update_host_entries-HasDistinct :
      (m : Maps J) (rpcs : List Json) → HasDistinct m → HasDistinct (update_host_entries J m rpcs)
  unfolding update_host_entries
  update_host_entries-HasDistinct m [] d = d
  update_host_entries-HasDistinct m (rpc ∷ rest) d =
      update_host_entries-HasDistinct (update_host_entry J m rpc).0 rest
        (update_host_entry-HasDistinct m rpc d)

  -- Whatever text arrives, the names of the hosts stay distinct.
  pub update_host_map-HasDistinct :
      (m : Maps J) (rpc : String) → HasDistinct m → HasDistinct (update_host_map J m rpc).0
  unfolding update_host_map
  update_host_map-HasDistinct m rpc d = elim (Option-cases (tokener_parse rpc)) [
    | inl bad ↦ rw (bad, update_host_map) d
    | inr (rpc_json, good) ↦
        rw (good, update_host_map)
          (elim (Bool-cases (is_array rpc_json)) [
            | inl many ↦ rw many (update_host_entries-HasDistinct m (items rpc_json) d)
            | inr one ↦ rw one (update_host_entry-HasDistinct m rpc_json d)
          ])
  ]
