-- ===== src/Shm/Exchange.antt =====
-- server/shmmap.c: what a viewer reads of what the server wrote.
use Prim.Native.String.{◌++◌ as append}
use pfstrase.Prelude.{
  String, ◌≡◌, ap, sym, ◌∙◌, some, some_inj, ◌>>=◌, >>=-eq-some, len, slice, leb, Bool-cases, inl,
  inr,
}
use pfstrase.Json.{JsonC}
use pfstrase.Stats.Host.{Maps}
use pfstrase.Stats.Group.{group_statsbytags}
use pfstrase.Stats.Tag.{tag_stats}
use pfstrase.Shm.{mm_size, copy_map, make_buffer, set_shm_map, get_shm_map}
use pfstrase.Prelude.{[], ◌∷◌}

pub copy_map-prefix :
    (memory buffer written : String)
    → copy_map memory buffer ≡ some written
    → (rest : String) × (append buffer rest ≡ written)
unfolding copy_map
copy_map-prefix memory buffer written done = elim (Bool-cases (leb (len buffer) mm_size)) [
  | inl fits ↦ (slice memory (len buffer) (len memory), some_inj (rw (fits, copy_map) at done))
  | inr large ↦ let impossible = rw (large, copy_map) at done in cc
]

module _ (J : JsonC) where
  open J use {Json, to_json_string, tokener_parse}

  -- The library reads a printed value back, whatever is behind it.
  abbrev pub StopsAtEnd : Json → Type 0
  StopsAtEnd m = (rest : String) → tokener_parse (append (to_json_string m) rest) ≡ some m

  buffer-make_buffer :
      (m next : Maps J) (buffer : String)
      → make_buffer J m ≡ some (next, buffer)
      → to_json_string next.server_tag_rate_map ≡ buffer
  unfolding make_buffer
  buffer-make_buffer m next buffer done =
      let (tagged, ran, more) =
        >>=-eq-some (tag_stats J m)
          (λ t. do
            grouped ← group_statsbytags J ("system" ∷ "fid" ∷ "server" ∷ "jid" ∷ "uid" ∷ []) t
            some (grouped, to_json_string grouped.server_tag_rate_map))
          done in
      let (grouped, ran', last) =
        >>=-eq-some (group_statsbytags J ("system" ∷ "fid" ∷ "server" ∷ "jid" ∷ "uid" ∷ []) tagged)
          (λ g. some (g, to_json_string g.server_tag_rate_map)) more in
      sym (ap (λ p. to_json_string p.0.server_tag_rate_map) (some_inj last))
      ∙ ap (λ p. p.1) (some_inj last)

  -- A viewer that reads after the server has written, which it does without undefined behaviour,
  -- gets the server's map, whatever the memory held before and whatever map the viewer had. The
  -- parser reads a printed map back, and stops behind it.
  pub get_shm_map-set_shm_map :
      (m next : Maps J) (memory written : String) (old : Json)
      → StopsAtEnd next.server_tag_rate_map
      → set_shm_map J m memory ≡ some (next, written)
      → get_shm_map J old written ≡ next.server_tag_rate_map
  unfolding set_shm_map get_shm_map
  get_shm_map-set_shm_map m next memory written old stops done =
      let ((grouped, buffer), made, more) =
        >>=-eq-some (make_buffer J m)
          (λ (p : Maps J × String). do w ← copy_map memory p.1; some (p.0, w)) done in
      let (w, copied, last) = >>=-eq-some (copy_map memory buffer) (λ w. some (grouped, w)) more in
      let (rest, joined) = copy_map-prefix memory buffer w copied in
      let same : grouped ≡ next = ap (λ p. p.0) (some_inj last) in
      let text : to_json_string next.server_tag_rate_map ≡ buffer =
        ap (λ n. to_json_string n.server_tag_rate_map) (sym same)
        ∙ buffer-make_buffer m grouped buffer made in
      let whole : append (to_json_string next.server_tag_rate_map) rest ≡ written =
        ap (λ t. append t rest) text ∙ joined ∙ ap (λ p. p.1) (some_inj last) in
      rw (← whole, stops rest, get_shm_map)
