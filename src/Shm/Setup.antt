-- ===== src/Shm/Setup.antt =====
-- server/shmmap.c: the semaphore and the mapping, which processes find by name. Semaphores and files
-- outlive their names as long as a process holds them, so that they are named by their place
-- here; whether a system call fails is a parameter.
pub mod Joins
use pfstrase.Prelude.{
  ℕ, zero, suc, String, Bool, Option, none, some, List, [], ◌∷◌, ◌++◌, length, get_elem?, ◌&&◌,
  if◌then◌else◌,
}

-- All semaphores by their values and all files of shared memory by their texts, and which of them
-- SEM_MUTEX_NAME and SERVER_TAG_RATE_MAP_FILE name.
pub record Kernel : Type 0 where
  pub sems : List ℕ
  pub sem_name : Option ℕ
  pub files : List String
  pub file_name : Option ℕ

-- Whether each call succeeds, as far as it is not the names that decide.
pub record Calls : Type 0 where
  pub sem_unlink : Bool
  pub sem_open : Bool
  pub shm_open : Bool
  pub ftruncate : Bool
  pub mmap : Bool
  pub mlock : Bool
  pub sem_post : Bool

-- `mutex_sem`, and the file behind `fd_shm` and `mm_ptr`.
pub record Mapping : Type 0 where
  pub mutex_sem : ℕ
  pub mm_ptr : ℕ

-- `exit(1)`, or the process goes on.
pub data End : Type 0 where
  exits : End
  goes_on : Mapping → End

-- The element at a place, changed.
unfoldable pub change_at {ℓ} : {A : Type ℓ} → (A → A) → ℕ → List A → List A
change_at f i [] = []
change_at f zero (x ∷ xs) = f x ∷ xs
change_at f (suc i) (x ∷ xs) = x ∷ change_at f i xs

-- `sem_unlink(SEM_MUTEX_NAME)`, whose result is not tested.
abbrev pub sem_unlinked : Bool → Kernel → Kernel
sem_unlinked succeeds k = if succeeds then record k { sem_name = none } else k

-- `sem_open(SEM_MUTEX_NAME, O_CREAT, 0666, 0)`: the semaphore that has the name, with the value that
-- it has, or a new one of the value 0.
abbrev pub sem_named : Option ℕ → Kernel → ℕ × Kernel
sem_named none k =
    (length k.sems, record k { sems = k.sems ++ 0 ∷ []; sem_name = some (length k.sems) })
sem_named (some i) k = (i, k)

abbrev pub sem_created : Kernel → ℕ × Kernel
sem_created k = sem_named k.sem_name k

-- `shm_open(SERVER_TAG_RATE_MAP_FILE, O_RDWR | O_CREAT | O_TRUNC, 0666)`: the file that has the name,
-- emptied, or a new one.
abbrev pub truncated : Option ℕ → Kernel → ℕ × Kernel
truncated none k =
    (length k.files, record k { files = k.files ++ "" ∷ []; file_name = some (length k.files) })
truncated (some j) k = (j, record k { files = change_at (λ old. "") j k.files })

abbrev pub shm_opened : Kernel → ℕ × Kernel
shm_opened k = truncated k.file_name k

abbrev pub sem_posted : ℕ → Kernel → Kernel
sem_posted i k = record k { sems = change_at suc i k.sems }

-- `umask` only matters for the rights of other users; `ftruncate` fills the file with zeros, which
-- leaves its text empty.
unfoldable pub shmmap_server_init : Calls → Kernel → End × Kernel
shmmap_server_init calls k =
    let unlinked = sem_unlinked calls.sem_unlink k in
    let (mutex_sem, created) = sem_created unlinked in
    let (mm_ptr, opened) = shm_opened created in
    if calls.sem_open
    then if calls.shm_open
      then if calls.ftruncate && calls.mmap && calls.mlock && calls.sem_post
        then (
          goes_on (record { mutex_sem = mutex_sem; mm_ptr = mm_ptr }),
          sem_posted mutex_sem opened,
        )
        else (exits, opened)
      else (exits, created)
    else (exits, unlinked)

-- munmap, close and sem_close let go of the mapping; then the names are gone.
unfoldable pub shmmap_server_kill : Kernel → Kernel
shmmap_server_kill k = record k { sem_name = none; file_name = none }

abbrev pub map_file : Calls → ℕ → Option ℕ → End
map_file calls i none = exits
map_file calls i (some j) =
    if calls.shm_open && calls.mmap then goes_on (record { mutex_sem = i; mm_ptr = j }) else exits

abbrev pub open_sem : Calls → Option ℕ → Option ℕ → End
open_sem calls none file_name = exits
open_sem calls (some i) file_name = if calls.sem_open then map_file calls i file_name else exits

-- Without O_CREAT a name has to be there.
unfoldable pub shmmap_client_init : Calls → Kernel → End
shmmap_client_init calls k = open_sem calls k.sem_name k.file_name

abbrev passed : Bool → ℕ → Option ℕ → Kernel → Option Kernel
passed posts i none k = none
passed posts i (some zero) k = none
passed posts i (some (suc n)) k =
    some (if posts then k else record k { sems = change_at (λ old. n) i k.sems })

-- sem_wait and sem_post, and the mapping is let go of; `none` is to wait.
unfoldable pub shmmap_client_kill : Calls → Mapping → Kernel → Option Kernel
shmmap_client_kill calls m k = passed calls.sem_post m.mutex_sem (get_elem? k.sems m.mutex_sem) k
