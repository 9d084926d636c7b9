-- ===== src/Stats/Tag/Fields.antt =====
-- The tags of one data entry.
use pfstrase.Prelude.{
  String, ◌≡◌, refl, false, ◌||◌, Option, none, some, ◌==◌, arith, or_else, inl, inr, Option-cases,
  Bool, ◌>>=◌, ◌∙◌, len, ◌<◌, snprintf, ◌↔◌, some_inj, none_of_map,
}
use pfstrase.Json.{JsonC}
use pfstrase.Json.Objects.{object_get_ex-object_add, object_get_ex-copy_tag}
use pfstrase.Stats.Host.{Maps}
use pfstrase.Stats.Tag.{filesystem, nid_entry, tag_client, tag_filesystem, tag_entry}

abbrev pub is_tag : String → Bool
is_tag f = "server" == f || "client" == f || "system" == f || "jid" == f || "uid" == f || "fid" == f

module _ (J : JsonC) where
  open J use {Json, object_get_ex, object_add, new_string, get_string}

  abbrev node_tag : Option Json → String → Option Json
  node_tag none f = none
  node_tag (some node) f = object_get_ex node f

  -- What the entry of a node holds, if the node is known and has the field.
  abbrev pub known_tag : Maps J → Json → String → Option Json
  known_tag m nid f = node_tag (nid_entry J m (get_string nid)) f

  -- The tags of an entry, and its other fields as they were.
  pub record IsTagged (m : Maps J) (host nid entry tagged : Json) : Type 0 where
    pub server : object_get_ex tagged "server" ≡ some host
    pub client : object_get_ex tagged "client" ≡ or_else (known_tag m nid "hid") (some nid)
    pub system :
        object_get_ex tagged "system" ≡ or_else (known_tag m nid "system") (some (new_string "*"))
    pub jid : object_get_ex tagged "jid" ≡ or_else (known_tag m nid "jid") (some (new_string "*"))
    pub uid : object_get_ex tagged "uid" ≡ or_else (known_tag m nid "uid") (some (new_string "*"))
    pub others : (f : String) → is_tag f ≡ false → object_get_ex tagged f ≡ object_get_ex entry f

  tag_client-tags :
      (m : Maps J) (server nid entry : Json)
      → IsTagged m server nid entry (tag_client J m nid (object_add entry "server" server))
  unfolding tag_client
  tag_client-tags m server nid entry = elim (Option-cases (nid_entry J m (get_string nid))) [
    | inl e ↦
        rw (e, tag_client)
          (record {
            server = simp object_get_ex-object_add;
            client = simp (object_get_ex-object_add, e);
            system = simp (object_get_ex-object_add, e);
            jid = simp (object_get_ex-object_add, e);
            uid = simp (object_get_ex-object_add, e);
            others = λ f h. simp object_get_ex-object_add (ground arith);
          })
    | inr (node, e) ↦
        rw (e, tag_client)
          (record {
            server = simp (object_get_ex-copy_tag, object_get_ex-object_add);
            client = simp (object_get_ex-copy_tag, object_get_ex-object_add, e);
            system = simp (object_get_ex-copy_tag, object_get_ex-object_add, e);
            jid = simp (object_get_ex-copy_tag, object_get_ex-object_add, e);
            uid = simp (object_get_ex-copy_tag, object_get_ex-object_add, e);
            others = λ f h. simp (object_get_ex-copy_tag, object_get_ex-object_add) (ground arith);
          })
  ]

  fid-tag_client :
      (m : Maps J) (nid entry : Json)
      → object_get_ex (tag_client J m nid entry) "fid" ≡ some (new_string "*")
  unfolding tag_client
  fid-tag_client m nid entry = elim (Option-cases (nid_entry J m (get_string nid))) [
    | inl e ↦ rw (e, tag_client) (simp object_get_ex-object_add)
    | inr (node, e) ↦ rw (e, tag_client) (simp (object_get_ex-copy_tag, object_get_ex-object_add))
  ]

  with_fid :
      (m : Maps J) (host nid entry marked fid : Json)
      → IsTagged m host nid entry marked
      → IsTagged m host nid entry (object_add marked "fid" fid)
  with_fid m host nid entry marked fid h = record {
    server = simp object_get_ex-object_add h.server;
    client = simp object_get_ex-object_add h.client;
    system = simp object_get_ex-object_add h.system;
    jid = simp object_get_ex-object_add h.jid;
    uid = simp object_get_ex-object_add h.uid;
    others = λ f t. simp object_get_ex-object_add (ground (arith, h.others f t));
  }

  abbrev pub filesystem_of : Option Json → Option (Option Json)
  filesystem_of none = some (some (new_string "*"))
  filesystem_of (some target) = do
    name ← filesystem (get_string target)
    some (some (new_string name))

  tag_filesystem-tags :
      (m : Maps J) (host nid entry marked tagged : Json)
      → IsTagged m host nid entry marked
      → object_get_ex marked "fid" ≡ some (new_string "*")
      → tag_filesystem J marked ≡ some tagged
      → IsTagged m host nid entry tagged
        × (filesystem_of (object_get_ex entry "target") ≡ some (object_get_ex tagged "fid"))
  unfolding tag_filesystem
  tag_filesystem-tags m host nid entry marked tagged h star done =
      elim (Option-cases (object_get_ex entry "target")) [
        | inl e ↦
            let gone : object_get_ex marked "target" ≡ none = h.others "target" refl ∙ e in
            let same : marked ≡ tagged = some_inj (rw (gone, tag_filesystem) at done) in
            rw (← same, e) (h, rw star)
        | inr (target, e) ↦
            let here : object_get_ex marked "target" ≡ some target = h.others "target" refl ∙ e in
            elim (Option-cases (filesystem (get_string target))) [
              | inl short ↦ let broken = rw (here, tag_filesystem, short) at done in cc
              | inr (name, found) ↦
                  let same : object_add marked "fid" (new_string name) ≡ tagged =
                    some_inj (rw (here, tag_filesystem, found) at done) in
                  rw (← same, e)
                    (
                      with_fid m host nid entry marked (new_string name) h,
                      rw (found, object_get_ex-object_add),
                    )
            ]
      ]

  filesystem-none_iff : (s : String) → (filesystem s ≡ none) ↔ (len (snprintf 32 s) < 8)
  unfolding filesystem
  filesystem-none_iff s = ground arith

  -- An entry with a client's node id is tagged, once its target has room for the cut, with its
  -- server, with the names that the node's entry holds, with the node id itself or "*" for those
  -- that it lacks, and with the file system of its target; every other field stays.
  pub tag_entry-IsTagged :
      (m : Maps J) (host nid entry tagged : Json)
      → object_get_ex entry "client_nid" ≡ some nid
      → tag_entry J m host entry ≡ some tagged
      → IsTagged m host nid entry tagged
        × (filesystem_of (object_get_ex entry "target") ≡ some (object_get_ex tagged "fid"))
  unfolding tag_entry
  tag_entry-IsTagged m host nid entry tagged from done =
      let here : object_get_ex (object_add entry "server" host) "client_nid" ≡ some nid =
        simp object_get_ex-object_add from in
      tag_filesystem-tags m host nid entry (tag_client J m nid (object_add entry "server" host))
        tagged (tag_client-tags m host nid entry)
        (fid-tag_client m nid (object_add entry "server" host)) (rw (here, tag_entry) at done)

  -- Tagging writes outside its buffer exactly for an entry with a client's node id and a target
  -- of fewer than eight bytes.
  pub tag_entry-none_iff :
      (m : Maps J) (host entry : Json)
      → (tag_entry J m host entry ≡ none) ↔ (
          (nid : Json) × (object_get_ex entry "client_nid" ≡ some nid)
          × (target : Json) × (object_get_ex entry "target" ≡ some target)
          × (len (snprintf 32 (get_string target)) < 8))
  unfolding tag_entry tag_filesystem
  tag_entry-none_iff m host entry =
      let owned = object_add entry "server" host in
      let from : object_get_ex owned "client_nid" ≡ object_get_ex entry "client_nid" =
        simp object_get_ex-object_add in
      elim (Option-cases (object_get_ex entry "client_nid")) [
        | inl e ↦ rw (tag_entry, from, e) (λ h. cc, λ h. absurd (cc h.1))
        | inr (nid, e) ↦
            let marked = tag_client J m nid owned in
            let kept : object_get_ex marked "target" ≡ object_get_ex entry "target" =
              (tag_client-tags m host nid entry).others "target" refl in
            elim (Option-cases (object_get_ex entry "target")) [
              | inl none_there ↦
                  rw (tag_entry, from, e, tag_filesystem, kept, none_there)
                    (λ h. cc, λ h. absurd (cc h.3))
              | inr (target, there) ↦
                  let name = filesystem (get_string target) in
                  rw (tag_entry, from, e, tag_filesystem, kept, there)
                    (
                      λ h. (
                        nid,
                        refl,
                        target,
                        refl,
                        (filesystem-none_iff _).0 (none_of_map name _ h),
                      ),
                      λ h.
                          let same : target ≡ h.2 = some_inj h.3 in
                          let short : name ≡ none = (filesystem-none_iff _).1 (rw same h.4) in
                          rw short,
                    )
            ]
      ]
