-- ===== src/Tests/Shared.antt =====
-- The shared memory, from its set-up on.
use pfstrase.Prelude.{◌≡◌, eqb, false, refl, true, some, [], ◌∷◌, get_elem?, arith}
use pfstrase.Shm.Protocol.{State, server_init, Step, here, next, wait_read}
use pfstrase.Shm.Progress.{TakesMaps, Reach-goes_on}
use pfstrase.Shm.Setup.{
  Kernel, Calls, Mapping, goes_on, change_at, shmmap_server_init, shmmap_client_init,
}
use pfstrase.Shm.Setup.Joins.{shmmap_client_init-shmmap_server_init, shmmap_server_init-restarted}
use pfstrase.Tests.Viewer.{P, rates}

rates-TakesMaps : TakesMaps P
rates-TakesMaps m rest = λ e. cc

-- A viewer waits for the memory that the server has written.
abbrev reading : State
reading = record (server_init "oss1=idle;left") { sem = 0; reading = 1 }

Reach-goes_on_example : (reading.gone ≡ 0) × ((t : State) × Step P reading t)
Reach-goes_on_example =
    Reach-goes_on P rates rates "left" reading rates-TakesMaps (omega arith)
      (next here (wait_read 0 refl refl))

-- The names of a server that was killed, and the mapping of its viewers.
abbrev killed : Kernel
killed = record { sems = 1 ∷ []; sem_name = some 0; files = "{}" ∷ []; file_name = some 0 }

abbrev viewing : Mapping
viewing = record { mutex_sem = 0; mm_ptr = 0 }

abbrev all_succeed : Calls
all_succeed = record {
  sem_unlink = true;
  sem_open = true;
  shm_open = true;
  ftruncate = true;
  mmap = true;
  mlock = true;
  sem_post = true;
}

abbrev restarted : Kernel
restarted = (shmmap_server_init all_succeed killed).1

shmmap_client_init-shmmap_server_init_example :
    (shmmap_client_init all_succeed restarted ≡ goes_on (record { mutex_sem = 1; mm_ptr = 0 }))
    × (get_elem? restarted.sems 1 ≡ some 1)
unfolding shmmap_server_init change_at
shmmap_client_init-shmmap_server_init_example =
    shmmap_client_init-shmmap_server_init all_succeed all_succeed killed refl (refl, refl)

abbrev serving : Mapping
serving = record { mutex_sem = 1; mm_ptr = 0 }

shmmap_server_init-restarted_example :
    (serving.mm_ptr ≡ viewing.mm_ptr) × (eqb serving.mutex_sem viewing.mutex_sem ≡ false)
unfolding shmmap_server_init
shmmap_server_init-restarted_example =
    shmmap_server_init-restarted all_succeed killed viewing serving (refl, refl, omega arith) refl
