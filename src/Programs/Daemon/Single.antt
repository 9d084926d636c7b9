-- ===== src/Programs/Daemon/Single.antt =====
-- How many daemons of a program run.
use pfstrase.Prelude.{
  ℕ, String, ◌≡◌, refl, sym, ap, ◌∙◌, Option, none, some, List, [], ◌∷◌, ◌++◌, length, ◌≤◌, arith,
  Bool-cases, inl, inr, ◌⊎◌,
}
use pfstrase.Programs.Daemon.{
  Fork, failed, parent, child, Calls, LockFile, End, goes_on, write_pid, second, first, daemonize,
  signal_cb_int, launched, Machines, Step, launch, interrupt, Reachable, start, next, lock_file,
}

module _ (print_pid : ℕ → String) where
  -- No daemon runs and the lock is free, or one runs and holds it.
  unfoldable pub IsHeld : Machines print_pid → Type 0
  IsHeld m =
      ((m.daemons ≡ []) × (m.file.holder ≡ none))
      ⊎ ((pid : ℕ) × (m.daemons ≡ pid ∷ []) × (m.file.holder ≡ some pid))

  -- What a start comes to: no daemon and an untouched file, or a free lock that is taken.
  Guards : LockFile → ℕ → End × LockFile → Type 0
  Guards file pid (end, after) =
      (((daemons : List ℕ) → launched print_pid end pid daemons ≡ daemons) × (after ≡ file))
      ⊎ ((file.holder ≡ none) × (end ≡ goes_on) × (after.holder ≡ some pid))

  lock_file-Guards :
      (pid : ℕ) (holder : Option ℕ) (file : LockFile)
      → file.holder ≡ holder
      → Guards file pid (lock_file print_pid pid holder file)
  unfolding Guards
  lock_file-Guards pid none file free = inr (free, refl, refl)
  lock_file-Guards pid (some other) file taken = inl (λ daemons. refl, refl)

  write_pid-Guards :
      (name : String) (calls : Calls) (file : LockFile)
      → Guards file calls.getpid (write_pid print_pid (some name) calls file)
  unfolding Guards write_pid
  write_pid-Guards name calls file = elim (Bool-cases calls.opens) [
    | inl opens ↦ rw (write_pid, opens) (lock_file-Guards calls.getpid file.holder file refl)
    | inr closed ↦ rw (write_pid, closed) (inl (λ daemons. refl, refl))
  ]

  second-Guards :
      (fork : Fork) (name : String) (calls : Calls) (file : LockFile)
      → Guards file calls.getpid (second print_pid fork (some name) calls file)
  unfolding Guards
  second-Guards failed name calls file = inl (λ daemons. refl, refl)
  second-Guards parent name calls file = inl (λ daemons. refl, refl)
  second-Guards child name calls file = write_pid-Guards name calls file

  first-Guards :
      (fork : Fork) (name : String) (calls : Calls) (file : LockFile)
      → Guards file calls.getpid (first print_pid fork (some name) calls file)
  unfolding Guards
  first-Guards failed name calls file = inl (λ daemons. refl, refl)
  first-Guards parent name calls file = inl (λ daemons. refl, refl)
  first-Guards child name calls file = elim (Bool-cases calls.setsid_fails) [
    | inl fails ↦ simp fails (inl (λ daemons. refl, refl))
    | inr leads ↦ simp leads (second-Guards calls.second_fork name calls file)
  ]

  daemonize-Guards :
      (name : String) (calls : Calls) (file : LockFile)
      → Guards file calls.getpid (daemonize print_pid (some name) calls file)
  unfolding daemonize
  daemonize-Guards name calls file = first-Guards calls.first_fork name calls file

  launch-IsHeld :
      (m : Machines print_pid) (pid : ℕ) (outcome : End × LockFile)
      → IsHeld m
      → Guards m.file pid outcome
      → IsHeld (record { daemons = launched print_pid outcome.0 pid m.daemons; file = outcome.1 })
  unfolding IsHeld Guards
  launch-IsHeld m pid (end, file) (inl (none_run, free)) (inl (same, kept)) =
      inl (same m.daemons ∙ none_run, rw kept free)
  launch-IsHeld m pid (end, file) (inr (other, runs, held)) (inl (same, kept)) =
      inr (other, same m.daemons ∙ runs, rw kept held)
  launch-IsHeld m pid (end, file) (inl (none_run, free)) (inr (was_free, on, held)) =
      inr (pid, rw (on, none_run) refl, held)
  launch-IsHeld m pid (end, file) (inr (other, runs, taken)) (inr (was_free, on, held)) =
      let never : none ≡ some other = sym was_free ∙ taken in cc

  only_one :
      (d pid : ℕ) (before after : List ℕ) → d ∷ [] ≡ before ++ pid ∷ after → before ++ after ≡ []
  only_one d pid [] after e = cc
  only_one d pid (b ∷ []) after e = cc
  only_one d pid (b ∷ c ∷ before) after e = cc

  some_run : (before : List ℕ) (pid : ℕ) (after : List ℕ) → 1 ≤ length (before ++ pid ∷ after)
  some_run [] pid after = omega arith
  some_run (b ∷ before) pid after = omega arith

  Step-IsHeld :
      (name : String) (m n : Machines print_pid)
      → IsHeld m
      → Step print_pid (some name) m n
      → IsHeld n
  unfolding IsHeld signal_cb_int
  Step-IsHeld name m n h (launch calls) =
      launch-IsHeld m calls.getpid (daemonize print_pid (some name) calls m.file) h
        (daemonize-Guards name calls m.file)
  Step-IsHeld name m n (inl (none_run, free)) (interrupt pid before after run) =
      ground (arith, ap length (sym none_run ∙ run), some_run before pid after)
  Step-IsHeld name m n (inr (d, runs, held)) (interrupt pid before after run) =
      inl (only_one d pid before after (sym runs ∙ run), refl)

  -- However processes of a program with a pid file are started and interrupted, one after the
  -- other, at most one of them runs as a daemon: the one that holds the lock.
  pub Reachable-IsHeld :
      (name : String) (m : Machines print_pid) → Reachable print_pid (some name) m → IsHeld m
  unfolding IsHeld
  Reachable-IsHeld name _ start = inl (refl, refl)
  Reachable-IsHeld name _ (next before step) =
      Step-IsHeld name _ _ (Reachable-IsHeld name _ before) step
