-- ===== src/Stats/Tag/Jobs.antt =====
-- From the report of a client and the report of a server to the tags of the server's exports.
use pfstrase.Prelude.{
  All, All-map, Bool-cases, String, ◌≡◌, refl, sym, ap, ◌∙◌, false, none, some, List, [], ◌∷◌, ◌==◌,
  eq_refl, or_else, DistinctKeys, lookup, inl, inr, Option-cases, if◌then◌else◌,
}
use pfstrase.Json.{JsonC}
use pfstrase.Stats.Host.{Maps, host_name, update_host_entry}
use pfstrase.Stats.Host.Entries.{
  field_of, field_in, reported, field_before, field_of-update_host_entry,
}
use pfstrase.Stats.Host.Nodes.{assigned, assign, node-update_host_entry}
use pfstrase.Stats.Tag.{nid_entry, tag_stats}
use pfstrase.Stats.Tag.Fields.{known_tag}
use pfstrase.Stats.Rates.{is_cpu, calc_rates}
use pfstrase.Stats.Rates.Tags.{IsRateIn, calc_rates-IsRateIn}
use pfstrase.Stats.Tag.Data.{Tagged, data-tag_stats}

module _ (J : JsonC) where
  open J use {
    Double, Json, object_get_ex, object_add, new_string, get_string, entries, items, new_array,
  }

  -- An entry or a rate of a node id carries a job and a user, under the name of a server.
  abbrev pub Carries : String → Json → Json → Json → Json → Type 0
  Carries nid job user host x =
      (client : Json)
      → object_get_ex x "client_nid" ≡ some client
      → get_string client ≡ nid
      → (object_get_ex x "jid" ≡ some job)
        × (object_get_ex x "uid" ≡ some user)
        × (object_get_ex x "server" ≡ some host)

  Tagged-Carries :
      (m : Maps J) (nid : String) (job user host : Json) (es ts : List Json)
      → ((client : Json)
          → get_string client ≡ nid
          → (known_tag J m client "jid" ≡ some job) × (known_tag J m client "uid" ≡ some user))
      → Tagged J m host es ts
      → All (Carries nid job user host) ts
  Tagged-Carries m nid job user host [] [] known all = tt
  Tagged-Carries m nid job user host [] (t ∷ ts) known all = elim all [ ]
  Tagged-Carries m nid job user host (e ∷ es) [] known all = tt
  Tagged-Carries m nid job user host (e ∷ es) (t ∷ ts) known all = (
    λ client from own.
        let tags = all.0 client (sym all.1 ∙ from) in
        let (of_job, of_user) = known client own in
        (
          tags.jid ∙ ap (λ o. or_else o (some (new_string "*"))) of_job,
          tags.uid ∙ ap (λ o. or_else o (some (new_string "*"))) of_user,
          tags.server,
        ),
    Tagged-Carries m nid job user host es ts known all.2,
  )

  -- A rate carries what its entry does.
  IsRateIn-Carries :
      (nid : String) (job user host : Json) (es : List Json) (rate : Json)
      → All (Carries nid job user host) es
      → IsRateIn J es rate
      → Carries nid job user host rate
  IsRateIn-Carries nid job user host [] rate all h = elim h [ ]
  IsRateIn-Carries nid job user host (e ∷ es) rate all (inr rest) =
      IsRateIn-Carries nid job user host es rate all.1 rest
  IsRateIn-Carries nid job user host (e ∷ es) rate all (inl own) = λ client from is_nid.
      let (t, typed, shown, tags) = own.stats_type in
      elim (Bool-cases (is_cpu J t)) [
        | inl cpu ↦ let never : none ≡ some client = sym (own.no_client t typed cpu) ∙ from in cc
        | inr export ↦
            let kept = tags export in
            let (of_job, of_user, of_host) = all.0 client (sym kept.0 ∙ from) is_nid in
            (kept.1.1.1.0 ∙ of_job, kept.1.1.1.1.0 ∙ of_user, own.server ∙ of_host)
      ]

  -- What a node id shows, once its host has an entry with the field.
  known_tag-field_of :
      (m : Maps J) (h f : String) (client v : Json)
      → lookup (get_string client) m.nid_map ≡ some h
      → field_of J m h f ≡ some v
      → known_tag J m client f ≡ some v
  unfolding nid_entry
  known_tag-field_of m h f client v named there = elim (Option-cases (object_get_ex m.host_map h)) [
    | inl unknown ↦
        let never : none ≡ some v = sym (ap (λ o. field_in J none o f) unknown) ∙ there in cc
    | inr (entry, known) ↦
        let own : object_get_ex entry f ≡ some v =
          sym (ap (λ o. field_in J none o f) known) ∙ there in
        rw (named, known) own
  ]

  module _ (m : Maps J) (client server client_name server_name array : Json) (nid : String)
      (named : object_get_ex client "hostname" ≡ some client_name)
      (assigns : assigned J client ≡ some nid)
      (named' : object_get_ex server "hostname" ≡ some server_name)
      (reports : object_get_ex server "data" ≡ some array)
      (apart : (host_name J server_name == host_name J client_name) ≡ false) where
    -- The maps after both reports.
    abbrev pub reported_maps : Maps J
    reported_maps = (update_host_entry J (update_host_entry J m client).0 server).0

    reported_nid : lookup nid reported_maps.nid_map ≡ some (host_name J client_name)
    reported_nid =
        let m1 = (update_host_entry J m client).0 in
        let no_nid : assigned J server ≡ none = rw reports refl in
        node-update_host_entry J m1 server server_name named' nid
        ∙ ap (λ o. assign J o nid (host_name J server_name) (lookup nid m1.nid_map)) no_nid
        ∙ node-update_host_entry J m client client_name named nid
        ∙ ap (λ o. assign J o nid (host_name J client_name) (lookup nid m.nid_map)) assigns
        ∙ rw eq_refl refl

    reported_tag :
        (f : String) (v : Json)
        → reported J client f ≡ some v
        → field_of J reported_maps (host_name J client_name) f ≡ some v
    reported_tag f v shows =
        let m1 = (update_host_entry J m client).0 in
        let name = host_name J client_name in
        field_of-update_host_entry J m1 server server_name named' name f
        ∙ ap
            (λ b.
              if b
              then or_else (reported J server f) (field_before J m1 name f)
              else field_of J m1 name f)
            apart
        ∙ field_of-update_host_entry J m client client_name named name f
        ∙ rw (eq_refl, shows) refl

    -- A client reports its node id, its job and its user, and then a server its data. Once tag_stats
    -- has run, every entry of the data is tagged, and those of that node id carry that job and that
    -- user under the name of the server; so do the rates that calc_rates takes of them, whatever
    -- the report before was. The two are different hosts, no two hosts share a name, and no write
    -- leaves its buffer.
    pub calc_rates-tag_stats :
        (m' : Maps J) (job user : Json)
        → object_get_ex client "jid" ≡ some job
        → object_get_ex client "uid" ≡ some user
        → DistinctKeys (entries reported_maps.host_map)
        → tag_stats J reported_maps ≡ some m'
        → (after : Json) × (field_of J m' (host_name J server_name) "data" ≡ some after)
          × Tagged J reported_maps
              (new_string (host_name J server_name))
              (items array)
              (items after)
          × All (Carries nid job user (new_string (host_name J server_name))) (items after)
          × ((oda : Json) (idt : Double)
              → All
                  (Carries nid job user (new_string (host_name J server_name)))
                  (items (calc_rates J new_array after oda idt)))
    unfolding lookup
    calc_rates-tag_stats m' job user of_job of_user d done =
        let m1 = (update_host_entry J m client).0 in
        let s = host_name J server_name in
        let P = Carries nid job user (new_string s) in
        let there : field_of J reported_maps s "data" ≡ some array =
          field_of-update_host_entry J m1 server server_name named' s "data"
          ∙ rw (eq_refl, reports) refl in
        let (after, shown, all) = data-tag_stats J reported_maps m' s array d done there in
        let carried : All P (items after) =
          Tagged-Carries reported_maps nid job user (new_string s) (items array) (items after)
            (λ c own.
              let at_c : lookup (get_string c) reported_maps.nid_map
                  ≡ some (host_name J client_name) =
                ap (λ n. lookup n reported_maps.nid_map) own ∙ reported_nid in
              (
                known_tag-field_of reported_maps (host_name J client_name) "jid" c job at_c
                    (reported_tag "jid" job of_job),
                known_tag-field_of reported_maps (host_name J client_name) "uid" c user at_c
                    (reported_tag "uid" user of_user),
              ))
            all in
        (
          after,
          shown,
          all,
          carried,
          λ oda idt.
              All-map (IsRateIn J (items after)) P (items (calc_rates J new_array after oda idt))
                (λ rate h.
                  IsRateIn-Carries nid job user (new_string s) (items after) rate carried h)
                (calc_rates-IsRateIn J after oda idt),
        )
