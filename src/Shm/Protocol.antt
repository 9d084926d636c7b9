-- ===== src/Shm/Protocol.antt =====
-- server/shmmap.c: the semaphore around the memory, between the server and any number of viewers.
use pfstrase.Prelude.{ℕ, suc, ◌+◌, ◌≤◌, ◌<◌, ◌≡◌, refl, ◌≢◌, arith, String, none, some}
use pfstrase.Json.{JsonC}
use pfstrase.Shm.{copy_map}

-- The semaphore, how many processes are between sem_wait and sem_post in each function, how many
-- readers have left without sem_post, and the memory.
pub record State : Type 0 where
  pub sem : ℕ
  pub writing : ℕ
  pub reading : ℕ
  pub gone : ℕ
  pub memory : String

-- shmmap_server_init: the semaphore is created with 0 and posted once.
abbrev pub server_init : String → State
server_init memory = record { sem = 1; writing = 0; reading = 0; gone = 0; memory = memory }

module _ (J : JsonC) where
  open J use {Json, to_json_string, tokener_parse}

  -- sem_wait passes where the semaphore is positive, and blocks otherwise.
  pub data Step (s t : State) : Type 0 where
    wait_write :
        (n : ℕ) → s.sem ≡ suc n → t ≡ record s { sem = n; writing = s.writing + 1 } → Step s t
    post_write :
        (w : ℕ) (server_tag_rate_map : Json) (memory : String)
        → s.writing ≡ suc w
        → copy_map s.memory (to_json_string server_tag_rate_map) ≡ some memory
        → t ≡ record s { sem = s.sem + 1; writing = w; memory = memory }
        → Step s t
    wait_read :
        (n : ℕ) → s.sem ≡ suc n → t ≡ record s { sem = n; reading = s.reading + 1 } → Step s t
    post_read :
        (r : ℕ)
        → s.reading ≡ suc r
        → tokener_parse s.memory ≢ none
        → t ≡ record s { sem = s.sem + 1; reading = r }
        → Step s t
    -- `goto out` passes over sem_post
    parse_error :
        (r : ℕ)
        → s.reading ≡ suc r
        → tokener_parse s.memory ≡ none
        → t ≡ record s { reading = r; gone = s.gone + 1 }
        → Step s t

  pub data Reach (s : State) : State → Type 0 where
    here : Reach s s
    next : {t u : State} → Reach s t → Step t u → Reach s u

  -- The one unit of the semaphore is with it, with a process, or lost.
  abbrev pub Accounted : State → Type 0
  Accounted s = s.sem + s.writing + s.reading + s.gone ≡ 1

  Step-Accounted : (s t : State) → Step s t → Accounted s → Accounted t
  Step-Accounted s t (wait_write n e u) h = rw u (omega arith)
  Step-Accounted s t (post_write w buffer memory e copied u) h = rw u (omega arith)
  Step-Accounted s t (wait_read n e u) h = rw u (omega arith)
  Step-Accounted s t (post_read r e good u) h = rw u (omega arith)
  Step-Accounted s t (parse_error r e bad u) h = rw u (omega arith)

  pub Reach-Accounted : {s t : State} → Reach s t → Accounted s → Accounted t
  Reach-Accounted here h = h
  Reach-Accounted (next {t = t} {u = u} r st) h = Step-Accounted t u st (Reach-Accounted r h)

  -- From the server's start on, at most one process is at the memory, reader or writer.
  pub mutual_exclusion :
      (memory : String) (s : State) → Reach (server_init memory) s → s.writing + s.reading ≤ 1
  mutual_exclusion memory s r = omega (arith, Reach-Accounted r refl)

  -- From the server's start on, once a reader has met a memory that does not parse, no process gets to the memory any more.
  pub parse_error_blocks :
      (memory : String) (s t : State) → Reach (server_init memory) s → 0 < s.gone → ¬ Step s t
  parse_error_blocks memory s t r lost (wait_write n e u) = omega (arith, Reach-Accounted r refl)
  parse_error_blocks memory s t r lost (post_write w b m e c u) =
      omega (arith, Reach-Accounted r refl)
  parse_error_blocks memory s t r lost (wait_read n e u) = omega (arith, Reach-Accounted r refl)
  parse_error_blocks memory s t r lost (post_read n e g u) = omega (arith, Reach-Accounted r refl)
  parse_error_blocks memory s t r lost (parse_error n e b u) = omega (arith, Reach-Accounted r refl)
