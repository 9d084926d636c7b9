-- ===== src/Programs/Sql.antt =====
-- server/pfsql.c: the program that copies the server's map from shared memory into the database. libev
-- calls one handler after the other; an event is what a handler reads from outside.
pub mod Loop
pub mod Inserts
use pfstrase.Prelude.{String, Bool, true, false, ◌≡◌, Option, none, some, List, [], ◌++◌, ◌>>=◌}
use pfstrase.Json.{JsonC}
use pfstrase.Stats.View.{View}
use pfstrase.Conf.{sql_client}
use pfstrase.Database.{pq_insert}
use pfstrase.Programs.{Arguments, read_settings}
use pfstrase.Programs.Server.{no_filters, connect_database}

-- The memory as it is when sem_wait lets the program to it, or a signal.
pub data Event : Type 0 where
  pq_timer_cb : String → Event
  signal_cb_int signal_cb_hup : Event

module _ (J : JsonC) (print_f : J.Double → String) where
  open J use {new_object}

  -- The repeat of `pq_timer`, the maps, and the statements executed so far.
  pub record Sql : Type 0 where
    pub arguments : Arguments
    pub pq_repeat : String
    pub view : View J
    pub executed : List String
    pub running : Bool

  abbrev pub started_sql : Arguments → Sql
  started_sql arguments = record {
    arguments = arguments;
    pq_repeat = arguments.settings.db_interval;
    view = record { server_tag_rate_map = new_object; screen_map = new_object };
    executed = [];
    running = true;
  }

  module _ (connects : String → Bool) where
    abbrev connected_sql : Arguments → Bool → Option Sql
    connected_sql arguments false = none
    connected_sql arguments true = some (started_sql arguments)

    -- main behind the configuration file: the loop's state, unless the database does not connect.
    unfoldable pub start_sql : Arguments → Option Sql
    start_sql arguments = do
      ok ← connect_database J print_f connects arguments.settings
      connected_sql arguments ok

  abbrev pub after_insert : Sql → View J × List String → Sql
  after_insert s (view, statements) = record s { view = view; executed = s.executed ++ statements }

  abbrev pub rearmed : Sql → Arguments → Sql
  rearmed s arguments = record s {
    arguments = arguments;
    pq_repeat = arguments.settings.db_interval;
  }

  module _ (scan_double : String → Option String) (open_file : String → Option (List String)) where
    unfoldable pub handle : Event → Sql → Option Sql
    handle (pq_timer_cb memory) s = do
      inserted ← pq_insert J print_f no_filters s.view memory
      some (after_insert s inserted)
    handle signal_cb_int s = some (record s { running = false })
    handle signal_cb_hup s = do
      settings ← read_settings scan_double open_file sql_client s.arguments
      some (rearmed s (record s.arguments { settings = settings }))

    -- One round of ev_run, which ends with ev_break.
    pub data Step : Sql → Sql → Type 0 where
      step : {s t : Sql} (e : Event) → s.running ≡ true → handle e s ≡ some t → Step s t

    pub data Reachable (first : Sql) : Sql → Type 0 where
      start : Reachable first first
      next : {s t : Sql} → Reachable first s → Step s t → Reachable first t
