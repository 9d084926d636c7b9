-- ===== src/Programs.antt =====
-- main of server/pfstrase_server.c, server/pfsql.c and client/pfstrase_client.c: the options, and the
-- configuration file that is read behind them.
pub mod Precedence
pub mod Server
pub mod Daemon
pub mod Collector
pub mod Sql
use pfstrase.Prelude.{ℕ, String, Bool, true, false, Option, none, some, List, [], ◌∷◌, ◌>>=◌}
use pfstrase.Conf.{
  Settings, Program, map_server, map_server_psql, sql_client, collector, ConfFile, no_name,
  unreadable, lines, read_conf_file,
}

-- What getopt_long returns for "hds:f:c:l:p:" and the long options: an option with its argument,
-- `h`, or `?`. It returns `i` for the long option only.
pub data Argument : Type 0 where
  server_name frequency interval conf_file log_file port_name : String → Argument
  daemon help unknown : Argument

pub record Arguments : Type 0 where
  pub settings : Settings
  pub daemonmode : Bool
  pub conf_file_name : Option String

-- The program goes on, or exits with a code.
pub data Start : Type 0 where
  run : Arguments → Start
  exit : ℕ → Start

-- The initial values; those that a program does not have are never read.
abbrev settings_with : String → Settings
settings_with port = record {
  server = none;
  port = port;
  dbserver = none;
  dbname = none;
  dbuser = none;
  db_interval = "30";
  shm_interval = "1";
  frequency = "300";
}

unfoldable pub default_settings : Program → Settings
default_settings map_server = settings_with "5672"
default_settings map_server_psql = settings_with "5672"
default_settings sql_client = settings_with "5433"
default_settings collector = settings_with "8312"

-- `shm_interval = atof(optarg)`, which pfsql has no case for.
abbrev set_interval : Program → String → Arguments → Arguments
set_interval map_server a args = record args {
  settings = record args.settings { shm_interval = a };
}
set_interval map_server_psql a args = record args {
  settings = record args.settings { shm_interval = a };
}
set_interval _ a args = args

abbrev set_server : Program → String → Arguments → Arguments
set_server collector a args = record args { settings = record args.settings { server = some a } }
set_server _ a args = args

abbrev set_frequency : Program → String → Arguments → Arguments
set_frequency collector a args = record args { settings = record args.settings { frequency = a } }
set_frequency _ a args = args

-- The cases of the switch; log_file_name is never read.
unfoldable pub set_argument : Program → Argument → Arguments → Start
set_argument program daemon args = run (record args { daemonmode = true })
set_argument program (conf_file a) args = run (record args { conf_file_name = some a })
set_argument program (port_name a) args =
    run (record args { settings = record args.settings { port = a } })
set_argument program (interval a) args = run (set_interval program a args)
set_argument program (server_name a) args = run (set_server program a args)
set_argument program (frequency a) args = run (set_frequency program a args)
set_argument program (log_file a) args = run args
set_argument program help args = exit 0
set_argument program unknown args = exit 1

unfoldable pub parse_arguments : Program → Arguments → List Argument → Start
parse_arguments program args [] = run args
parse_arguments program args (a ∷ rest) = elim (set_argument program a args) [
  | run next ↦ parse_arguments program next rest
  | exit code ↦ exit code
]

abbrev pub default_arguments : Program → Arguments
default_arguments program = record {
  settings = default_settings program;
  daemonmode = false;
  conf_file_name = none;
}

-- `fopen(conf_file_name, "r")` is a parameter: the lines of a file that opens.
module _ (open_file : String → Option (List String)) where
  abbrev opened : Option (List String) → ConfFile
  opened none = unreadable
  opened (some l) = lines l

  abbrev pub conf_file_of : Option String → ConfFile
  conf_file_of none = no_name
  conf_file_of (some name) = opened (open_file name)

-- `Must specify a server to send data to`
abbrev check_server : Option String → Arguments → Start
check_server none args = exit 0
check_server (some name) args = run args

abbrev pub check_settings : Program → Arguments → Start
check_settings collector args = check_server args.settings.server args
check_settings _ args = run args

module _ (scan_double : String → Option String) (open_file : String → Option (List String)) where
  -- `read_conf_file(0)`; its return code is not read.
  unfoldable pub read_settings : Program → Arguments → Option Settings
  read_settings program args = do
    (settings, rc) ←
        read_conf_file scan_double program (conf_file_of open_file args.conf_file_name)
          args.settings
    some settings

  abbrev pub configured : Program → Start → Option Start
  configured program (exit code) = some (exit code)
  configured program (run args) = do
    settings ← read_settings program args
    some (check_settings program (record args { settings = settings }))

  -- main up to the timers: the arguments with the settings that the program goes on with.
  unfoldable pub configure : Program → List Argument → Option Start
  configure program l = configured program (parse_arguments program (default_arguments program) l)
