-- ===== src/Shm/Sound.antt =====
-- What holds of the server's maps, whatever arrives and however often they are written to memory.
use mathlib.Core.Path.{subst}
use pfstrase.Prelude.{
  String, ◌≡◌, refl, sym, ap, ◌∙◌, Bool, true, false, negsuc, Option, none, some, List, [], ◌∷◌,
  ◌==◌, ◌>>=◌, >>=-eq-some, some_inj, Option-cases, Bool-cases, inl, inr, lookup, if◌then◌else◌,
}
use pfstrase.Json.{JsonC}
use pfstrase.Stats.Host.{Maps, host_name, update_host_entry, update_host_entries, update_host_map}
use pfstrase.Stats.Host.Entries.{field_of, field_in, field_of-update_host_entry}
use pfstrase.Stats.Host.Nodes.{IsClosed, update_host_entry_unnamed}
use pfstrase.Stats.Host.Distinct.{HasDistinct, update_host_map-HasDistinct}
use pfstrase.Stats.Tag.{tag_host}
use pfstrase.Stats.Tag.Hosts.{object_get_ex-tag_host}
use pfstrase.Stats.Group.{Outcome, group_host}
use pfstrase.Stats.Group.Both.{KeepsBoth, group_host-KeepsBoth}
use pfstrase.Stats.Group.Each.{entry_after}
use pfstrase.Shm.{set_shm_map}
use pfstrase.Shm.Closed.{set_shm_map-IsClosed}
use pfstrase.Shm.Rounds.{server_tags, tagged_entry, set_shm_map-HasDistinct, set_shm_map-hosts}
use pfstrase.Rpc.{
  Recv, closed, failed, recv_loop, starts_json, process_rpc, process_received, sock_rpc,
  socket_buffersize,
}
use pfstrase.Rpc.Accepts.{sock_rpc-IsClosed}

module _ (J : JsonC) where
  open J use {Json, object_get_ex, items, is_array, tokener_parse}

  -- A host that keeps the time of a report keeps its data.
  abbrev pub HasBoth : Maps J → Type 0
  HasBoth m =
      (h : String) (otime : Json)
      → field_of J m h "otime" ≡ some otime
      → (oda : Json) × (field_of J m h "odata" ≡ some oda)

  -- Node ids stand for hosts that have an entry, no two hosts share a name, and the time and the
  -- data of a report are kept together.
  pub record IsSound (m : Maps J) : Type 0 where
    pub nodes : IsClosed J m
    pub hosts : HasDistinct J m
    pub reports : HasBoth m

  pub KeepsBoth-host :
      (m : Maps J) (h : String) (entry : Json)
      → HasBoth m
      → object_get_ex m.host_map h ≡ some entry
      → KeepsBoth J entry
  KeepsBoth-host m h entry both there otime e =
      let of_m = ap (λ o. field_in J none o "otime") there in
      let (oda, kept) = both h otime (of_m ∙ e) in
      (oda, sym (ap (λ o. field_in J none o "odata") there) ∙ kept)

  if_same : (b : Bool) {x y : Option Json} → x ≡ y → (if b then x else y) ≡ y
  if_same true e = e
  if_same false e = refl

  update_host_entry-HasBoth :
      (m : Maps J) (rpc : Json) → HasBoth m → HasBoth (update_host_entry J m rpc).0
  unfolding lookup
  update_host_entry-HasBoth m rpc both = elim (Option-cases (object_get_ex rpc "hostname")) [
    | inl unnamed ↦ rw (update_host_entry_unnamed J m rpc unnamed) both
    | inr (tag, named) ↦ λ h otime kept.
        let fields = field_of-update_host_entry J m rpc tag named h in
        let own = host_name J tag == h in
        let (oda, there) = both h otime (sym (fields "otime" ∙ if_same own refl) ∙ kept) in
        (oda, fields "odata" ∙ if_same own refl ∙ there)
  ]

  update_host_entries-HasBoth :
      (m : Maps J) (rpcs : List Json) → HasBoth m → HasBoth (update_host_entries J m rpcs)
  unfolding update_host_entries
  update_host_entries-HasBoth m [] both = both
  update_host_entries-HasBoth m (rpc ∷ rest) both =
      update_host_entries-HasBoth (update_host_entry J m rpc).0 rest
        (update_host_entry-HasBoth m rpc both)

  update_host_map-HasBoth :
      (m : Maps J) (rpc : String) → HasBoth m → HasBoth (update_host_map J m rpc).0
  unfolding update_host_map
  update_host_map-HasBoth m rpc both = elim (Option-cases (tokener_parse rpc)) [
    | inl bad ↦ rw (bad, update_host_map) both
    | inr (rpc_json, good) ↦
        rw (good, update_host_map)
          (elim (Bool-cases (is_array rpc_json)) [
            | inl many ↦ rw many (update_host_entries-HasBoth m (items rpc_json) both)
            | inr one ↦ rw one (update_host_entry-HasBoth m rpc_json both)
          ])
  ]

  -- What update_host_map keeps, a connection keeps.
  sock_rpc-keeps :
      (P : Maps J → Type 0) (m : Maps J) (arriving : List Recv)
      → ((rpc : String) → P m → P (update_host_map J m rpc).0)
      → P m
      → P (sock_rpc J m arriving)
  unfolding sock_rpc process_rpc
  sock_rpc-keeps P m arriving keeps h =
      elim (recv_loop socket_buffersize "" arriving) as (λ r. P (process_received J m r)) [
        | closed request ↦
            elim (starts_json J request)
              as (λ b. P (if b then update_host_map J m request else (m, negsuc 0)).0) [
                | true ↦ keeps request h
                | false ↦ h
              ]
        | failed ↦ h
      ]

  -- Whatever arrives on a connection, the maps stay sound.
  pub sock_rpc-IsSound :
      (m : Maps J) (arriving : List Recv) → IsSound m → IsSound (sock_rpc J m arriving)
  sock_rpc-IsSound m arriving s = record {
    nodes = sock_rpc-IsClosed J m arriving s.nodes;
    hosts = sock_rpc-keeps (HasDistinct J) m arriving (update_host_map-HasDistinct J m) s.hosts;
    reports = sock_rpc-keeps HasBoth m arriving (update_host_map-HasBoth m) s.reports;
  }

  pub tag_host-KeepsBoth :
      (m : Maps J) (key : String) (entry tagged : Json)
      → tag_host J m key entry ≡ some tagged
      → KeepsBoth J entry
      → KeepsBoth J tagged
  tag_host-KeepsBoth m key entry tagged done both otime e =
      let same = object_get_ex-tag_host J m key entry tagged done in
      let (oda, kept) = both otime (sym (same "otime" refl) ∙ e) in (oda, same "odata" refl ∙ kept)

  -- The entry of a host that is known after a round, from the one before it.
  pub round_of :
      (m : Maps J) (h : String) (after : Json)
      → (tagged_entry J m h >>= entry_after J (server_tags J)) ≡ some after
      → (entry tagged : Json) × (outcome : Outcome J) × (object_get_ex m.host_map h ≡ some entry)
        × (tag_host J m h entry ≡ some tagged)
        × (group_host J (server_tags J) tagged ≡ some outcome)
        × (outcome.0 ≡ after)
  round_of m h after done =
      let (tagged, known, more) =
        >>=-eq-some (tagged_entry J m h) (entry_after J (server_tags J)) done in
      let (entry, there, ran) =
        >>=-eq-some (object_get_ex m.host_map h) (λ e. tag_host J m h e) known in
      let (outcome, round, last) =
        >>=-eq-some (group_host J (server_tags J) tagged) (λ (o : Outcome J). some o.0) more in
      (entry, tagged, outcome, there, ran, round, some_inj last)

  set_shm_map-HasBoth :
      (m m' : Maps J) (memory written : String)
      → HasDistinct J m
      → set_shm_map J m memory ≡ some (m', written)
      → HasBoth m
      → HasBoth m'
  set_shm_map-HasBoth m m' memory written d done both h otime kept =
      elim (Option-cases (object_get_ex m'.host_map h)) [
        | inl unknown ↦
            let never : none ≡ some otime =
              sym (ap (λ o. field_in J none o "otime") unknown) ∙ kept in
            cc
        | inr (after, known) ↦
            let round = (set_shm_map-hosts J m m' memory written d done h).0 in
            let (entry, tagged, outcome, there, ran, grouped, same) =
              round_of m h after (sym round ∙ known) in
            let first =
              tag_host-KeepsBoth m h entry tagged ran (KeepsBoth-host m h entry both there) in
            let last : KeepsBoth J after =
              subst (KeepsBoth J) same
                (group_host-KeepsBoth J (server_tags J) tagged outcome first grouped) in
            let (oda, e) = last otime (sym (ap (λ o. field_in J none o "otime") known) ∙ kept) in
            (oda, ap (λ o. field_in J none o "odata") known ∙ e)
      ]

  -- A round of set_shm_map keeps the maps sound.
  pub set_shm_map-IsSound :
      (m m' : Maps J) (memory written : String)
      → IsSound m
      → set_shm_map J m memory ≡ some (m', written)
      → IsSound m'
  set_shm_map-IsSound m m' memory written s done = record {
    nodes = set_shm_map-IsClosed J m memory m' written s.nodes done;
    hosts = set_shm_map-HasDistinct J m m' memory written done s.hosts;
    reports = set_shm_map-HasBoth m m' memory written s.hosts done s.reports;
  }
