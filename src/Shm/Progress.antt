-- ===== src/Shm/Progress.antt =====
-- server/shmmap.c: no reader is lost at a memory that the server has written.
use Prim.Native.String.{◌++◌ as append}
use mathlib.Core.Path.{subst}
use pfstrase.Prelude.{
  ◌+◌, ◌≡◌, refl, ◌≢◌, arith, String, none, some, len, ◌≤◌, inl, inr, slice, le→leb, ℕ-cases,
}
use pfstrase.Json.{JsonC}
use pfstrase.Shm.{mm_size, copy_map}
use pfstrase.Shm.Exchange.{copy_map-prefix}
use pfstrase.Shm.Protocol.{
  State, server_init, Step, wait_write, post_write, wait_read, post_read, parse_error, Reach, here,
  next, Reach-Accounted,
}

module _ (J : JsonC) where
  open J use {Json, to_json_string, tokener_parse}

  -- The parser takes a printed map, whatever stands behind it.
  abbrev pub TakesMaps : Type 0
  TakesMaps = (m : Json) (rest : String) → tokener_parse (append (to_json_string m) rest) ≢ none

  abbrev Sound : State → Type 0
  Sound s = (tokener_parse s.memory ≢ none) × (s.gone ≡ 0)

  parses-copy_map :
      (m : Json) (memory written : String)
      → TakesMaps
      → copy_map memory (to_json_string m) ≡ some written
      → tokener_parse written ≢ none
  parses-copy_map m memory written takes copied =
      let (rest, whole) = copy_map-prefix memory (to_json_string m) written copied in
      subst (λ w. tokener_parse w ≢ none) whole (takes m rest)

  Step-Sound : (s t : State) → TakesMaps → Step J s t → Sound s → Sound t
  Step-Sound s t takes (wait_write n e u) h = rw u h
  Step-Sound s t takes (post_write w m memory e copied u) h =
      rw u (parses-copy_map m s.memory memory takes copied, h.1)
  Step-Sound s t takes (wait_read n e u) h = rw u h
  Step-Sound s t takes (post_read r e good u) h = rw u h
  Step-Sound s t takes (parse_error r e bad u) h = elim (h.0 bad) [ ]

  Reach-Sound : {s t : State} → TakesMaps → Reach J s t → Sound s → Sound t
  Reach-Sound takes here h = h
  Reach-Sound takes (next {t = t} {u = u} r st) h = Step-Sound t u takes st (Reach-Sound takes r h)

  -- A map that the mapping has room for.
  abbrev pub HasRoom : Json → Type 0
  HasRoom m = len (to_json_string m) ≤ mm_size

  written_map :
      (m : Json) (memory : String)
      → HasRoom m
      → (written : String) × (copy_map memory (to_json_string m) ≡ some written)
  unfolding copy_map
  written_map m memory room =
      let fits = le→leb (len (to_json_string m)) mm_size room in
      (append (to_json_string m) (slice memory (len (to_json_string m)) (len memory)), rw fits refl)

  goes_on_from :
      (s : State) (m : Json)
      → HasRoom m
      → Sound s
      → s.sem + s.writing + s.reading + s.gone ≡ 1
      → (t : State) × Step J s t
  goes_on_from s m room h one = elim (ℕ-cases s.reading) [
    | inr (r, reads) ↦ (_, post_read r reads h.0 refl)
    | inl none_reads ↦ elim (ℕ-cases s.writing) [
      | inr (w, writes) ↦
          let (written, copied) = written_map m s.memory room in
          (_, post_write w m written writes copied refl)
      | inl none_writes ↦ (_, wait_read 0 (omega (arith, one, none_reads, none_writes, h.1)) refl)
    ]
  ]

  -- From a memory on that holds a printed map, whatever stands behind it, and whatever the server
  -- and the viewers do in whichever order: no reader leaves without its sem_post, and some process
  -- can always go on. The parser takes printed maps whatever stands behind them, and the server has
  -- a map that the mapping has room for.
  pub Reach-goes_on :
      (first m : Json) (behind : String) (s : State)
      → TakesMaps
      → HasRoom m
      → Reach J (server_init (append (to_json_string first) behind)) s
      → (s.gone ≡ 0) × ((t : State) × Step J s t)
  Reach-goes_on first m behind s takes room r =
      let h = Reach-Sound takes r (takes first behind, refl) in
      (h.1, goes_on_from s m room h (Reach-Accounted J r refl))
