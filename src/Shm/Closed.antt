-- ===== src/Shm/Closed.antt =====
-- What the rounds over all hosts leave of the maps: every host that is known, and the node ids.
use pfstrase.Prelude.{
  String, ◌≡◌, refl, sym, ap, ◌∙◌, some, List, [], ◌∷◌, >>=-eq-some, some_inj, ◌>>=◌, Bool-cases,
  inl, inr, ◌==◌, lookup,
}
use mathlib.Core.Path.{subst}
use pfstrase.Json.{JsonC}
use pfstrase.Json.Objects.{object_get_ex-object_add}
use pfstrase.Stats.Host.{Maps}
use pfstrase.Stats.Host.Nodes.{IsClosed, Known}
use pfstrase.Stats.Tag.{tag_host, tag_hosts, tag_stats}
use pfstrase.Stats.Group.{group_host, store_outcome, group_hosts, set_group_tags, group_statsbytags}
use pfstrase.Shm.{make_buffer, copy_map, set_shm_map}

module _ (J : JsonC) where
  open J use {Json, object_add, entries}

  pub record Extends (m m' : Maps J) : Type 0 where
    pub same_nodes : m'.nid_map ≡ m.nid_map
    pub known : (g : String) → Known J m g → Known J m' g

  Extends-trans : (a b c : Maps J) → Extends a b → Extends b c → Extends a c
  Extends-trans a b c h k = record {
    same_nodes = k.same_nodes ∙ h.same_nodes;
    known = λ g known. k.known g (h.known g known);
  }

  -- An entry that is written.
  written-Known :
      (m : Maps J) (rates : Json) (h : String) (entry : Json) (g : String)
      → Known J m g
      → Known J
          (record m { host_map = object_add m.host_map h entry; server_tag_rate_map = rates })
          g
  written-Known m rates h entry g (e, known) =
      rw object_get_ex-object_add (elim (Bool-cases (h == g)) [
        | inl same ↦ rw same (entry, refl)
        | inr other ↦ rw other (e, known)
      ])

  written-Extends :
      (m : Maps J) (rates : Json) (h : String) (entry : Json)
      → Extends m
          (record m { host_map = object_add m.host_map h entry; server_tag_rate_map = rates })
  written-Extends m rates h entry = record {
    same_nodes = refl;
    known = written-Known m rates h entry;
  }

  pub tag_hosts-Extends :
      (es : List (String × Json)) (m m' : Maps J) → tag_hosts J m es ≡ some m' → Extends m m'
  unfolding tag_hosts
  tag_hosts-Extends [] m m' done =
      rw (← some_inj done) (record { same_nodes = refl; known = λ g known. known })
  tag_hosts-Extends ((key, entry) ∷ es) m m' done =
      let (tagged, ran, rest) =
        >>=-eq-some (tag_host J m key entry)
          (λ t. tag_hosts J (record m { host_map = object_add m.host_map key t }) es) done in
      let next : Maps J = record m { host_map = object_add m.host_map key tagged } in
      Extends-trans m next m' (written-Extends m m.server_tag_rate_map key tagged)
        (tag_hosts-Extends es next m' rest)

  group_hosts-Extends :
      (tags : Json) (es : List (String × Json)) (m m' : Maps J)
      → group_hosts J tags m es ≡ some m'
      → Extends m m'
  unfolding group_hosts store_outcome
  group_hosts-Extends tags [] m m' done =
      rw (← some_inj done) (record { same_nodes = refl; known = λ g known. known })
  group_hosts-Extends tags ((server, entry) ∷ es) m m' done =
      let (outcome, ran, rest) =
        >>=-eq-some (group_host J tags entry)
          (λ o. group_hosts J tags (store_outcome J m server o) es) done in
      let next = store_outcome J m server outcome in
      Extends-trans m next m' (written-Extends m next.server_tag_rate_map server outcome.0)
        (group_hosts-Extends tags es next m' rest)

  abbrev names : List String
  names = "system" ∷ "fid" ∷ "server" ∷ "jid" ∷ "uid" ∷ []

  -- Writing the shared memory keeps every node id and every host.
  pub set_shm_map-Extends :
      (m : Maps J) (memory : String) (m' : Maps J) (memory' : String)
      → set_shm_map J m memory ≡ some (m', memory')
      → Extends m m'
  unfolding set_shm_map make_buffer tag_stats group_statsbytags
  set_shm_map-Extends m memory m' memory' done =
      let (made, buffer, copied) =
        >>=-eq-some {B = Maps J × String} (make_buffer J m)
          (λ made. copy_map memory made.1 >>= λ written. some (made.0, written)) done in
      let (tagged, tags, grouped) =
        >>=-eq-some {B = Maps J × String} (tag_stats J m)
          (λ t.
            group_statsbytags J names t >>= λ g. some (g, J.to_json_string g.server_tag_rate_map))
          buffer in
      let (groups, grouped', same) =
        >>=-eq-some {B = Maps J × String} (group_statsbytags J names tagged)
          (λ g. some (g, J.to_json_string g.server_tag_rate_map)) grouped in
      let (written, copy, last) =
        >>=-eq-some {B = Maps J × String} (copy_map memory made.1)
          (λ written. some (made.0, written)) copied in
      let is_last : groups ≡ m' = ap (λ p. p.0) (some_inj same) ∙ ap (λ p. p.0) (some_inj last) in
      subst (Extends m) is_last (
        Extends-trans m tagged groups (tag_hosts-Extends (entries m.host_map) m tagged tags) (
          group_hosts-Extends (set_group_tags J names) (entries tagged.host_map) tagged groups
            grouped'))

  -- Writing the shared memory, wherever it does not leave an array, keeps every node id at a host
  -- that has an entry.
  pub set_shm_map-IsClosed :
      (m : Maps J) (memory : String) (m' : Maps J) (memory' : String)
      → IsClosed J m
      → set_shm_map J m memory ≡ some (m', memory')
      → IsClosed J m'
  set_shm_map-IsClosed m memory m' memory' closed done nid h e =
      let extends = set_shm_map-Extends m memory m' memory' done in
      extends.known h (closed nid h (ap (lookup nid) (sym extends.same_nodes) ∙ e))
