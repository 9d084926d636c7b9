-- ===== src/Shm/Rounds.antt =====
-- set_shm_map over all hosts: what one round of the server's timer does to each.
use pfstrase.Prelude.{
  String, ◌≡◌, refl, ap, ◌∙◌, Option, some, List, [], ◌∷◌, ◌>>=◌, >>=-eq-some, some_inj,
}
use mathlib.Core.Path.{subst}
use pfstrase.Json.{JsonC}
use pfstrase.Stats.Host.{Maps}
use pfstrase.Stats.Host.Distinct.{HasDistinct, object_add-DistinctKeys}
use pfstrase.Stats.Tag.{tag_host, tag_hosts, tag_stats}
use pfstrase.Stats.Tag.Each.{tag_stats-hosts}
use pfstrase.Stats.Group.{set_group_tags, group_host, store_outcome, group_hosts, group_statsbytags}
use pfstrase.Stats.Group.Each.{entry_after, groups_after, group_hosts-hosts}
use pfstrase.Shm.{make_buffer, copy_map, set_shm_map}

module _ (J : JsonC) where
  open J use {Json, object_get_ex, object_add, entries, to_json_string}

  -- The tags that the server groups by.
  abbrev pub server_names : List String
  server_names = "system" ∷ "fid" ∷ "server" ∷ "jid" ∷ "uid" ∷ []

  abbrev pub server_tags : Json
  server_tags = set_group_tags J server_names

  -- The entry of a host with its data tagged.
  abbrev pub tagged_entry : Maps J → String → Option Json
  tagged_entry m h = object_get_ex m.host_map h >>= λ entry. tag_host J m h entry

  record Keeps (m m' : Maps J) : Type 0 where
    distinct : HasDistinct J m → HasDistinct J m'
    rates : m'.server_tag_rate_map ≡ m.server_tag_rate_map

  tag_hosts-Keeps :
      (m m' : Maps J) (es : List (String × Json)) → tag_hosts J m es ≡ some m' → Keeps m m'
  unfolding tag_hosts
  tag_hosts-Keeps m m' [] done =
      subst (Keeps m) (some_inj done) (record { distinct = λ d. d; rates = refl })
  tag_hosts-Keeps m m' ((key, entry) ∷ es) done =
      let (tagged, ran, rest) =
        >>=-eq-some (tag_host J m key entry)
          (λ t. tag_hosts J (record m { host_map = object_add m.host_map key t }) es) done in
      let next : Maps J = record m { host_map = object_add m.host_map key tagged } in
      let later = tag_hosts-Keeps next m' es rest in
      record {
        distinct = λ d. later.distinct (object_add-DistinctKeys J m.host_map key tagged d);
        rates = later.rates;
      }

  group_hosts-HasDistinct :
      (tags : Json) (m m' : Maps J) (es : List (String × Json))
      → group_hosts J tags m es ≡ some m'
      → HasDistinct J m
      → HasDistinct J m'
  unfolding group_hosts store_outcome
  group_hosts-HasDistinct tags m m' [] done d = subst (HasDistinct J) (some_inj done) d
  group_hosts-HasDistinct tags m m' ((server, entry) ∷ es) done d =
      let (outcome, ran, rest) =
        >>=-eq-some (group_host J tags entry)
          (λ o. group_hosts J tags (store_outcome J m server o) es) done in
      group_hosts-HasDistinct tags (store_outcome J m server outcome) m' es rest
        (object_add-DistinctKeys J m.host_map server outcome.0 d)

  -- The two loops of set_shm_map.
  loops-set_shm_map :
      (m m' : Maps J) (memory written : String)
      → set_shm_map J m memory ≡ some (m', written)
      → (tagged : Maps J) × (tag_stats J m ≡ some tagged)
        × (group_statsbytags J server_names tagged ≡ some m')
  unfolding set_shm_map make_buffer
  loops-set_shm_map m m' memory written done =
      let (made, buffer, copied) =
        >>=-eq-some {B = Maps J × String} (make_buffer J m)
          (λ made. copy_map memory made.1 >>= λ w. some (made.0, w)) done in
      let (w, wrote, last) =
        >>=-eq-some {B = Maps J × String} (copy_map memory made.1) (λ w. some (made.0, w)) copied in
      let (tagged, ran, more) =
        >>=-eq-some {B = Maps J × String} (tag_stats J m)
          (λ t. group_statsbytags J server_names t >>= λ g.
            some (g, to_json_string g.server_tag_rate_map))
          buffer in
      let (grouped, ran', both) =
        >>=-eq-some {B = Maps J × String} (group_statsbytags J server_names tagged)
          (λ g. some (g, to_json_string g.server_tag_rate_map)) more in
      (tagged, ran, ran' ∙ ap (λ p. some p.0) (some_inj both) ∙ ap (λ p. some p.0) (some_inj last))

  pub set_shm_map-HasDistinct :
      (m m' : Maps J) (memory written : String)
      → set_shm_map J m memory ≡ some (m', written)
      → HasDistinct J m
      → HasDistinct J m'
  unfolding tag_stats group_statsbytags
  set_shm_map-HasDistinct m m' memory written done d =
      let (tagged, ran, ran') = loops-set_shm_map m m' memory written done in
      group_hosts-HasDistinct server_tags tagged m' (entries tagged.host_map) ran'
        ((tag_hosts-Keeps m tagged (entries m.host_map) ran).distinct d)

  -- One round of set_shm_map treats every host as if it were the only one: its data are tagged with
  -- the names that the nodes had at the start of the round, its entry is then what a round of the
  -- grouping makes of it, and the groups that are published for it change where that round has made
  -- new ones. No two hosts share a name.
  pub set_shm_map-hosts :
      (m m' : Maps J) (memory written : String)
      → HasDistinct J m
      → set_shm_map J m memory ≡ some (m', written)
      → (h : String)
      → (object_get_ex m'.host_map h ≡ (tagged_entry m h >>= entry_after J server_tags))
        × (object_get_ex m'.server_tag_rate_map h
            ≡ groups_after J server_tags (tagged_entry m h) (object_get_ex m.server_tag_rate_map h))
  unfolding tag_stats group_statsbytags
  set_shm_map-hosts m m' memory written d done h =
      let (tagged, ran, ran') = loops-set_shm_map m m' memory written done in
      let kept = tag_hosts-Keeps m tagged (entries m.host_map) ran in
      let (host, groups) = group_hosts-hosts J server_tags tagged m' (kept.distinct d) ran' h in
      let entry : object_get_ex tagged.host_map h ≡ tagged_entry m h =
        tag_stats-hosts J m tagged d ran h in
      (
        host ∙ ap (λ o. o >>= entry_after J server_tags) entry,
        groups
            ∙ ap (λ o. groups_after J server_tags o (object_get_ex tagged.server_tag_rate_map h))
                entry
            ∙ ap (λ r. groups_after J server_tags (tagged_entry m h) (object_get_ex r h))
                kept.rates,
      )
