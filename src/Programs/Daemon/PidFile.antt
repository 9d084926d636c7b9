-- ===== src/Programs/Daemon/PidFile.antt =====
-- client/pidfile_create.c: a pid file with a lock, which no program makes yet. What the system calls
-- return is a parameter.
use pfstrase.Prelude.{
  ℕ, String, Bool, ◌≡◌, refl, Option, none, some, len, slice, eqb, Bool-cases, inl, inr,
  if◌then◌else◌,
}
use pfstrase.Programs.Daemon.{LockFile}

-- The descriptor that open() returns, whether fcntl() can lock at all, whether ftruncate() succeeds, and
-- how many bytes write() writes.
pub record PidCalls : Type 0 where
  pub getpid : ℕ
  pub fd : Option ℕ
  pub fcntl : Bool
  pub ftruncate : Bool
  pub write : ℕ

-- `print_pid` is how snprintf shows a process for `%ld\n`, which 80 bytes have room for.
module _ (print_pid : ℕ → String) where
  -- What write() leaves of an empty file.
  abbrev written : PidCalls → LockFile → LockFile
  written calls file = record file { text = slice (print_pid calls.getpid) 0 calls.write }

  -- The lock goes with the descriptor: it is released by close() where a later call fails.
  abbrev fill_file : ℕ → PidCalls → LockFile → Option ℕ × LockFile
  fill_file fd calls file =
      if calls.ftruncate
      then if eqb calls.write (len (print_pid calls.getpid))
        then (some fd, record { holder = some calls.getpid; text = print_pid calls.getpid })
        else (none, written calls file)
      else (none, file)

  -- `fcntl(fd, F_SETLK, &fl)` fails where another process has the lock.
  abbrev take_lock : Option ℕ → ℕ → PidCalls → LockFile → Option ℕ × LockFile
  take_lock (some other) fd calls file = (none, file)
  take_lock none fd calls file = if calls.fcntl then fill_file fd calls file else (none, file)

  abbrev opened_file : Option ℕ → PidCalls → LockFile → Option ℕ × LockFile
  opened_file none calls file = (none, file)
  opened_file (some fd) calls file = take_lock file.holder fd calls file

  -- The descriptor, and the file.
  unfoldable pub pidfile_create : PidCalls → LockFile → Option ℕ × LockFile
  pidfile_create calls file = opened_file calls.fd calls file

  -- A descriptor stands for the lock, and for the pid as the whole text; without one, the lock is
  -- with whom it was.
  abbrev pub Locked : PidCalls → LockFile → Option ℕ × LockFile → Type 0
  Locked calls file (none, after) = after.holder ≡ file.holder
  Locked calls file (some fd, after) =
      (file.holder ≡ none)
      × (calls.fd ≡ some fd)
      × (after.holder ≡ some calls.getpid)
      × (after.text ≡ print_pid calls.getpid)

  fill_file-Locked :
      (fd : ℕ) (calls : PidCalls) (file : LockFile)
      → calls.fd ≡ some fd
      → file.holder ≡ none
      → Locked calls file (fill_file fd calls file)
  fill_file-Locked fd calls file opened free = elim (Bool-cases calls.ftruncate) [
    | inr fails ↦ rw fails refl
    | inl empty ↦ elim (Bool-cases (eqb calls.write (len (print_pid calls.getpid)))) [
      | inl whole ↦ rw (empty, whole) (free, opened, refl, refl)
      | inr short ↦ rw (empty, short) refl
    ]
  ]

  take_lock-Locked :
      (o : Option ℕ) (fd : ℕ) (calls : PidCalls) (file : LockFile)
      → calls.fd ≡ some fd
      → file.holder ≡ o
      → Locked calls file (take_lock o fd calls file)
  take_lock-Locked (some other) fd calls file opened held = refl
  take_lock-Locked none fd calls file opened free = elim (Bool-cases calls.fcntl) [
    | inl locks ↦ rw locks (fill_file-Locked fd calls file opened free)
    | inr fails ↦ rw fails refl
  ]

  opened_file-Locked :
      (o : Option ℕ) (calls : PidCalls) (file : LockFile)
      → calls.fd ≡ o
      → Locked calls file (opened_file o calls file)
  opened_file-Locked none calls file e = refl
  opened_file-Locked (some fd) calls file e = take_lock-Locked file.holder fd calls file e refl

  -- Whichever call fails, pidfile_create leaves the lock with whom it was; it returns a descriptor
  -- only where the lock was free, and then has the lock, and the file holds its pid and nothing else.
  pub pidfile_create-Locked :
      (calls : PidCalls) (file : LockFile) → Locked calls file (pidfile_create calls file)
  unfolding pidfile_create
  pidfile_create-Locked calls file = opened_file-Locked calls.fd calls file refl
