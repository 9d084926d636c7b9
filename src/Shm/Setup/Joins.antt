-- ===== src/Shm/Setup/Joins.antt =====
-- Which semaphore and which memory the processes hold after the server's start.
use pfstrase.Prelude.{
  eqb, not, ℕ, zero, suc, ◌<◌, ◌≡◌, refl, sym, ap, ◌∙◌, arith, Bool, true, false, Option, none,
  some, List, [], ◌∷◌, ◌++◌, length, get_elem?, ◌&&◌, some_inj, Bool-cases, inl, inr, if◌then◌else◌,
}
use pfstrase.Shm.Setup.{
  Kernel, Calls, Mapping, End, exits, goes_on, change_at, sem_unlinked, sem_created, shm_opened,
  sem_posted, truncated, open_sem, shmmap_server_init, shmmap_client_init,
}

module _ {ℓ} {A : Type ℓ} where
  get_elem?-snoc : (xs : List A) (x : A) → get_elem? (xs ++ x ∷ []) (length xs) ≡ some x
  get_elem?-snoc [] x = refl
  get_elem?-snoc (y ∷ xs) x = get_elem?-snoc xs x

  get_elem?-change_at :
      (f : A → A) (xs : List A) (i : ℕ) {x : A}
      → get_elem? xs i ≡ some x
      → get_elem? (change_at f i xs) i ≡ some (f x)
  unfolding change_at
  get_elem?-change_at f [] i e = cc
  get_elem?-change_at f (y ∷ xs) zero e = ap (λ z. some (f z)) (some_inj e)
  get_elem?-change_at f (y ∷ xs) (suc i) e = get_elem?-change_at f xs i e

  get_elem?-some : (xs : List A) (i : ℕ) {x : A} → get_elem? xs i ≡ some x → i < length xs
  get_elem?-some [] i e = cc
  get_elem?-some (y ∷ xs) zero e = omega arith
  get_elem?-some (y ∷ xs) (suc i) e = omega (arith, get_elem?-some xs i e)

-- What a client finds where the server goes on with a mapping: that mapping, with a semaphore that
-- it can pass. Where the server has exited, a client exits too, or waits at its semaphore.
abbrev pub Joined : Calls → End → Kernel → Type 0
Joined client (goes_on m) k =
    (shmmap_client_init client k ≡ goes_on m) × (get_elem? k.sems m.mutex_sem ≡ some 1)
Joined client exits k =
    (m : Mapping) → shmmap_client_init client k ≡ goes_on m → get_elem? k.sems m.mutex_sem ≡ some 0

abbrev pub Succeeds : Calls → Type 0
Succeeds client = (client.sem_open ≡ true) × (client.shm_open && client.mmap ≡ true)

-- What O_CREAT and O_TRUNC leave.
record Opened (k : Kernel) (opened : ℕ × Kernel) : Type 0 where
  sems : opened.1.sems ≡ k.sems
  sem_name : opened.1.sem_name ≡ k.sem_name
  file_name : opened.1.file_name ≡ some opened.0

truncated-Opened : (o : Option ℕ) (k : Kernel) → k.file_name ≡ o → Opened k (truncated o k)
truncated-Opened none k e = record { sems = refl; sem_name = refl; file_name = refl }
truncated-Opened (some j) k e = record { sems = refl; sem_name = refl; file_name = e }

shm_opened-Opened : (k : Kernel) → Opened k (shm_opened k)
shm_opened-Opened k = truncated-Opened k.file_name k refl

map_file-sem :
    (opens maps : Bool) (i : ℕ) (j : ℕ) (m : Mapping)
    → (if opens
        then if maps then goes_on (record { mutex_sem = i; mm_ptr = j }) else exits
        else exits)
      ≡ goes_on m
    → m.mutex_sem ≡ i
map_file-sem true true i j m e = cc
map_file-sem true false i j m e = cc
map_file-sem false maps i j m e = cc

open_sem-sem :
    (client : Calls) (i : ℕ) (o : Option ℕ) (m : Mapping)
    → open_sem client (some i) o ≡ goes_on m
    → m.mutex_sem ≡ i
open_sem-sem client i none m e = elim (Bool-cases client.sem_open) [
  | inl opens ↦ cc
  | inr fails ↦ cc
]
open_sem-sem client i (some j) m e =
    map_file-sem client.sem_open (client.shm_open && client.mmap) i j m e

client-sem :
    (client : Calls) (k : Kernel) (i : ℕ) (m : Mapping)
    → k.sem_name ≡ some i
    → shmmap_client_init client k ≡ goes_on m
    → m.mutex_sem ≡ i
unfolding shmmap_client_init
client-sem client k i m named e =
    open_sem-sem client i k.file_name m (sym (ap (λ o. open_sem client o k.file_name) named) ∙ e)

client-both :
    (client : Calls) (k : Kernel) (i j : ℕ)
    → Succeeds client
    → k.sem_name ≡ some i
    → k.file_name ≡ some j
    → shmmap_client_init client k ≡ goes_on (record { mutex_sem = i; mm_ptr = j })
unfolding shmmap_client_init
client-both client k i j (e, e') named named' = rw (named, named', e, e') refl

-- Once a server that has got rid of the old name of the semaphore has set the shared memory up, a
-- client whose calls succeed holds the same semaphore and the same memory, and one process can pass
-- the semaphore. Where a later call of the server has failed, no client passes: it exits too, or its
-- semaphore is 0.
pub shmmap_client_init-shmmap_server_init :
    (calls client : Calls) (k : Kernel)
    → calls.sem_unlink ≡ true
    → Succeeds client
    → Joined client (shmmap_server_init calls k).0 (shmmap_server_init calls k).1
unfolding shmmap_server_init shmmap_client_init
shmmap_client_init-shmmap_server_init calls client k gone ok =
    let created = (sem_created (record k { sem_name = none })).1 in
    let (mm_ptr, opened) = shm_opened created in
    let o = shm_opened-Opened created in
    let fresh = get_elem?-snoc k.sems 0 in
    elim (Bool-cases calls.sem_open) [
      | inr no_sem ↦ rw (gone, no_sem) (λ m e. cc)
      | inl sem ↦ elim (Bool-cases calls.shm_open) [
        | inr no_file ↦
            rw (gone, sem, no_file)
              (λ m e. rw (client-sem client created (length k.sems) m refl e) fresh)
        | inl file ↦
            elim (Bool-cases (calls.ftruncate && calls.mmap && calls.mlock && calls.sem_post)) [
              | inl rest ↦
                  rw (gone, sem, file, rest)
                    (
                      client-both client (sem_posted (length k.sems) opened) (length k.sems) mm_ptr
                          ok o.sem_name o.file_name,
                      get_elem?-change_at suc opened.sems (length k.sems) (rw o.sems fresh),
                    )
              | inr failed ↦
                  rw (gone, sem, file, failed)
                    (λ m e.
                      rw (client-sem client opened (length k.sems) m o.sem_name e, o.sems) fresh)
            ]
      ]
    ]

-- The names that a server leaves that has not removed them, and the mapping of a process that found
-- them.
abbrev pub Found : Kernel → Mapping → Type 0
Found k m =
    (k.sem_name ≡ some m.mutex_sem) × (k.file_name ≡ some m.mm_ptr) × (m.mutex_sem < length k.sems)

goes_on_inj : {m n : Mapping} → goes_on m ≡ goes_on n → m ≡ n
goes_on_inj e = cc

-- The set-up with the calls as Booleans.
abbrev set_up : Bool → Bool → Bool → Mapping → Kernel → Kernel → Kernel → Kernel → End × Kernel
set_up x y z m a b c d =
    if x then if y then if z then (goes_on m, a) else (exits, b) else (exits, c) else (exits, d)

went_on :
    (x y z : Bool) (m after : Mapping) (a b c d : Kernel)
    → (set_up x y z m a b c d).0 ≡ goes_on after
    → m ≡ after
went_on true true true m after a b c d e = goes_on_inj e
went_on true true false m after a b c d e = cc
went_on true false z m after a b c d e = cc
went_on false y z m after a b c d e = cc

-- Which semaphore and which memory the restarted server holds.
held_again :
    (succeeds : Bool) (k : Kernel) (i j : ℕ)
    → k.sem_name ≡ some i
    → k.file_name ≡ some j
    → i < length k.sems
    → let created = sem_created (sem_unlinked succeeds k) in
      (eqb created.0 i ≡ not succeeds) × ((shm_opened created.1).0 ≡ j)
held_again true k i j named mapped there = (ground arith, rw mapped refl)
held_again false k i j named mapped there = (rw named (ground arith), rw (named, mapped) refl)

-- A server that is started again where the names are still there goes on with the memory that the
-- processes of before have mapped; it goes on with their semaphore just where the semaphore's old
-- name could not be removed, and with a semaphore of its own otherwise.
pub shmmap_server_init-restarted :
    (calls : Calls) (k : Kernel) (before after : Mapping)
    → Found k before
    → (shmmap_server_init calls k).0 ≡ goes_on after
    → (after.mm_ptr ≡ before.mm_ptr) × (eqb after.mutex_sem before.mutex_sem ≡ not calls.sem_unlink)
unfolding shmmap_server_init
shmmap_server_init-restarted calls k before after (named, mapped, there) done =
    let created = sem_created (sem_unlinked calls.sem_unlink k) in
    let own : Mapping = record { mutex_sem = created.0; mm_ptr = (shm_opened created.1).0 } in
    let same : own ≡ after =
      went_on calls.sem_open calls.shm_open
        (calls.ftruncate && calls.mmap && calls.mlock && calls.sem_post) own after _ _ _ _ done in
    let (semaphore, memory) =
      held_again calls.sem_unlink k before.mutex_sem before.mm_ptr named mapped there in
    (
      sym (ap (λ m. m.mm_ptr) same) ∙ memory,
      ap (λ m. eqb m.mutex_sem before.mutex_sem) (sym same) ∙ semaphore,
    )
