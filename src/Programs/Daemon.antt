-- ===== src/Programs/Daemon.antt =====
-- server/daemonize.c and client/daemonize.c, which are the same, and the signal handlers that undo it:
-- how a program becomes a daemon, and its pid file. What the system calls return is a parameter.
pub mod Single
pub mod PidFile
use Prim.Native.String.{◌++◌ as append}
use pfstrase.Prelude.{
  ℕ, String, Bool, true, false, ◌≡◌, Option, none, some, List, [], ◌∷◌, len, slice, ◌++◌,
  if◌then◌else◌,
}

-- What fork returns: below 0, to the parent, or to the child.
pub data Fork : Type 0 where
  failed parent child : Fork

-- The calls of one process up to the lock file; `opens` is whether open() returns a descriptor.
pub record Calls : Type 0 where
  pub first_fork : Fork
  pub setsid_fails : Bool
  pub second_fork : Fork
  pub opens : Bool
  pub getpid : ℕ

-- The lock file: the process that holds its lock, and its text.
pub record LockFile : Type 0 where
  pub holder : Option ℕ
  pub text : String

pub data End : Type 0 where
  exit_failure exit_success goes_on : End

-- `print_pid` is how sprintf shows a process for `%d\n`.
module _ (print_pid : ℕ → String) where
  -- write() at the start of a file that may hold more than it writes.
  abbrev overwritten : String → String → String
  overwritten old str = append str (slice old (len str) (len old))

  -- `lockf(pid_fd, F_TLOCK, 0)`, and the pid that is written.
  abbrev lock_file : ℕ → Option ℕ → LockFile → End × LockFile
  lock_file pid (some other) file = (exit_failure, file)
  lock_file pid none file =
      (goes_on, record { holder = some pid; text = overwritten file.text (print_pid pid) })

  unfoldable pub write_pid : Option String → Calls → LockFile → End × LockFile
  write_pid none calls file = (goes_on, file)
  write_pid (some pid_file_name) calls file =
      if calls.opens then lock_file calls.getpid file.holder file else (exit_failure, file)

  abbrev second : Fork → Option String → Calls → LockFile → End × LockFile
  second failed pid_file_name calls file = (exit_failure, file)
  second parent pid_file_name calls file = (exit_success, file)
  second child pid_file_name calls file = write_pid pid_file_name calls file

  abbrev first : Fork → Option String → Calls → LockFile → End × LockFile
  first failed pid_file_name calls file = (exit_failure, file)
  first parent pid_file_name calls file = (exit_success, file)
  first child pid_file_name calls file =
      if calls.setsid_fails
      then (exit_failure, file)
      else second calls.second_fork pid_file_name calls file

  unfoldable pub daemonize : Option String → Calls → LockFile → End × LockFile
  daemonize pid_file_name calls file = first calls.first_fork pid_file_name calls file

  -- signal_cb_int: the lock is released and the file unlinked, so that the next open makes a new one.
  unfoldable pub signal_cb_int : Option String → LockFile → LockFile
  signal_cb_int none file = file
  signal_cb_int (some pid_file_name) file = record { holder = none; text = "" }

  -- The daemons of one program, and their pid file.
  pub record Machines : Type 0 where
    pub daemons : List ℕ
    pub file : LockFile

  abbrev launched : End → ℕ → List ℕ → List ℕ
  launched goes_on pid daemons = pid ∷ daemons
  launched _ pid daemons = daemons

  -- A process is started, or a daemon gets SIGINT; each runs to its end before the next one.
  pub data Step (pid_file_name : Option String) : Machines → Machines → Type 0 where
    launch :
        {m : Machines} (calls : Calls)
        → Step pid_file_name m (record {
          daemons = launched (daemonize pid_file_name calls m.file).0 calls.getpid m.daemons;
          file = (daemonize pid_file_name calls m.file).1;
        })
    interrupt :
        {m : Machines} (pid : ℕ) (before after : List ℕ)
        → m.daemons ≡ before ++ pid ∷ after
        → Step pid_file_name m
            (record { daemons = before ++ after; file = signal_cb_int pid_file_name m.file })

  abbrev pub no_daemons : Machines
  no_daemons = record { daemons = []; file = record { holder = none; text = "" } }

  pub data Reachable (pid_file_name : Option String) : Machines → Type 0 where
    start : Reachable pid_file_name no_daemons
    next :
        {m n : Machines}
        → Reachable pid_file_name m
        → Step pid_file_name m n
        → Reachable pid_file_name n
