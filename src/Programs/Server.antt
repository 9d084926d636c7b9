-- ===== src/Programs/Server.antt =====
-- server/pfstrase_server.c: the loop of the server. libev calls one handler after the other; an event
-- is what a handler reads from outside.
pub mod Cases
pub mod Loop
pub mod Viewers
pub mod Deaf
pub mod Rounds
use pfstrase.Prelude.{
  String, Bool, true, false, ◌≡◌, Option, none, some, List, [], ◌∷◌, ◌++◌, ◌>>=◌, if◌then◌else◌,
}
use pfstrase.Json.{JsonC}
use pfstrase.Stats.Host.{Maps}
use pfstrase.Stats.View.{Filters, View}
use pfstrase.Shm.{set_shm_map}
use pfstrase.Rpc.{Recv, sock_rpc}
use pfstrase.Rpc.Listen.{Calls, Socket, socket_listen, accept, socket_destroy}
use pfstrase.Conf.{Settings, Program, map_server, map_server_psql}
use pfstrase.Database.{pq_connect, pq_insert}
use pfstrase.Programs.{Arguments, conf_file_of, read_settings}

-- Which events the loop waits for, and with what intervals.
pub record Timers : Type 0 where
  pub shm_repeat : String
  pub pq_repeat : String
  pub pq_initialised : Bool
  pub pq_active : Bool

pub data Event : Type 0 where
  sock_rpc_cb : List Recv → Event
  shm_timer_cb pq_timer_cb signal_cb_int signal_cb_hup : Event

-- `#ifdef PSQL`
abbrev pub has_psql : Program → Bool
has_psql map_server_psql = true
has_psql _ = false

-- filter_user and the others are never set in the server.
abbrev pub no_filters : Filters
no_filters = record { user = none; job = none; server = none }

module _ (J : JsonC) (print_f : J.Double → String) where
  open J use {Json, new_object}

  pub record Server : Type 0 where
    pub arguments : Arguments
    pub timers : Timers
    pub socket : Socket
    pub maps : Maps J
    pub screen_map : Json
    pub memory : String
    pub executed : List String
    pub running : Bool

  -- map_init of server/stats.c
  abbrev pub map_init : Maps J
  map_init = record { host_map = new_object; nid_map = []; server_tag_rate_map = new_object }

  -- shmmap_server_init: the new mapping holds nothing.
  abbrev pub started : Program → Calls → Arguments → Server
  started program calls arguments = record {
    arguments = arguments;
    timers = record {
      shm_repeat = arguments.settings.shm_interval;
      pq_repeat = if has_psql program then arguments.settings.db_interval else "";
      pq_initialised = has_psql program;
      pq_active = has_psql program;
    };
    socket = socket_listen calls;
    maps = map_init;
    screen_map = new_object;
    memory = "";
    executed = [];
    running = true;
  }

  module _ (connects : String → Bool) where
    -- A name that is not set is printed with `%s`.
    unfoldable pub connect_database : Settings → Option Bool
    connect_database settings = do
      dbserver ← settings.dbserver
      dbname ← settings.dbname
      dbuser ← settings.dbuser
      some (pq_connect connects dbserver dbname dbuser).1

    abbrev pub connected : Program → Calls → Arguments → Bool → Option Server
    connected program calls arguments false = none
    connected program calls arguments true = some (started program calls arguments)

    -- main behind the configuration file: the server, unless the database does not connect.
    unfoldable pub start_server : Program → Calls → Arguments → Option Server
    start_server map_server_psql calls arguments = do
      ok ← connect_database arguments.settings
      connected map_server_psql calls arguments ok
    start_server program calls arguments = some (started program calls arguments)

  abbrev after_insert : Server → View J × List String → Server
  after_insert s (view, statements) = record s {
    maps = record s.maps { server_tag_rate_map = view.server_tag_rate_map };
    screen_map = view.screen_map;
    executed = s.executed ++ statements;
  }

  -- `pq_insert()`, which shares its maps with the rest of the server.
  abbrev insert_rows_of : Server → Option Server
  insert_rows_of s = do
    inserted ←
        pq_insert J print_f no_filters
          (record { server_tag_rate_map = s.maps.server_tag_rate_map; screen_map = s.screen_map })
          s.memory
    some (after_insert s inserted)

  -- The interval and whether the timer runs: ev_timer_again starts it, also where ev_timer_init was
  -- not called.
  abbrev rearm : Settings → Timers → Timers
  rearm settings t = record t {
    shm_repeat = settings.shm_interval;
    pq_repeat = settings.db_interval;
    pq_active = true;
  }

  module _ (scan_double : String → Option String) (open_file : String → Option (List String)) where
    -- `none` is undefined behaviour: a write outside an array, or a callback that is NULL.
    unfoldable pub handle : Program → Event → Server → Option Server
    handle program (sock_rpc_cb arriving) s =
        some (record s { maps = sock_rpc J s.maps (accept s.socket arriving) })
    handle program shm_timer_cb s = do
      (maps, memory) ← set_shm_map J s.maps s.memory
      some (record s { maps = maps; memory = memory })
    handle program pq_timer_cb s = if s.timers.pq_initialised then insert_rows_of s else none
    handle program signal_cb_int s =
        some (record s { socket = socket_destroy s.socket; running = false })
    handle program signal_cb_hup s = do
      settings ← read_settings scan_double open_file program s.arguments
      some (record s {
        arguments = record s.arguments { settings = settings };
        timers = rearm settings s.timers;
      })

    -- Whether the loop waits for an event.
    abbrev pub is_awaited : Event → Server → Bool
    is_awaited pq_timer_cb s = s.timers.pq_active
    is_awaited _ s = true

    -- One round of ev_run, which ends with ev_break.
    pub data Step (program : Program) : Server → Server → Type 0 where
      step :
          {s t : Server} (e : Event)
          → s.running ≡ true
          → is_awaited e s ≡ true
          → handle program e s ≡ some t
          → Step program s t

    pub data Reachable (program : Program) (first : Server) : Server → Type 0 where
      start : Reachable program first first
      next :
          {s t : Server} → Reachable program first s → Step program s t → Reachable program first t
