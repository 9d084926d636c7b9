-- ===== src/Programs/Collector.antt =====
-- client/pfstrase_client.c: the loop of the collector. libev calls one handler after the other; an event
-- carries what its handler reads from outside.
pub mod Loop
use pfstrase.Prelude.{
  ℕ, String, Bool, true, false, ◌≡◌, Option, none, some, List, [], ◌∷◌, ◌++◌, ◌>>=◌, ℤ,
}
use pfstrase.Json.{JsonC}
use pfstrase.Collect.{Machine}
use pfstrase.Collect.Devices.{DeviceInfo}
use pfstrase.Collect.Report.{Sysinfo}
use pfstrase.Collect.Send.{Network, Sent, sock_send_data}
use pfstrase.Conf.{collector}
use pfstrase.Programs.{Arguments, Start, run, exit, read_settings}

-- What a machine shows while a report is made: its files, sysinfo(), the time (`none` where
-- clock_gettime fails) and the network as it is for a server and a port.
pub record Surroundings : Type 0 where
  pub machine : Machine
  pub sysinfo : Option Sysinfo
  pub clock : Option (ℤ × ℤ)
  pub network : String → String → Network

pub data Event : Type 0 where
  sock_timer_cb : Surroundings → Event
  signal_cb_int signal_cb_hup : Event

-- The repeat of `timer`, and what was sent so far to which server and port.
pub record Collector : Type 0 where
  pub arguments : Arguments
  pub info : DeviceInfo
  pub timer_repeat : String
  pub reports : List (String × String × Sent)
  pub running : Bool

-- main behind its check of the server.
unfoldable pub start_collector : DeviceInfo → Arguments → Collector
start_collector info arguments = record {
  arguments = arguments;
  info = info;
  timer_repeat = arguments.settings.frequency;
  reports = [];
  running = true;
}

-- `clock_gettime(CLOCK_REALTIME, &info->time)` of collect_devices
unfoldable pub set_time : Option (ℤ × ℤ) → DeviceInfo → DeviceInfo
set_time none info = info
set_time (some (tv_sec, tv_nsec)) info = record info { tv_sec = tv_sec; tv_nsec = tv_nsec }

module _ (J : JsonC) (to_float : ℕ → J.Double) where
  -- `sock_send_data(server, port)`; getaddrinfo is not given a name that is NULL.
  abbrev send_to : Option String → Surroundings → Collector → Option Collector
  send_to none around c = none
  send_to (some server) around c = do
    let info = set_time around.clock c.info
    let port = c.arguments.settings.port
    sent ← sock_send_data J around.machine around.sysinfo to_float (around.network server port) info
    some (record c { info = info; reports = c.reports ++ (server, port, sent) ∷ [] })

  module _ (scan_double : String → Option String) (open_file : String → Option (List String)) where
    unfoldable pub handle : Event → Collector → Option Collector
    handle (sock_timer_cb around) c = send_to c.arguments.settings.server around c
    handle signal_cb_int c = some (record c { running = false })
    handle signal_cb_hup c = do
      settings ← read_settings scan_double open_file collector c.arguments
      some (record c {
        arguments = record c.arguments { settings = settings };
        timer_repeat = settings.frequency;
      })

    -- One round of ev_run, which ends with ev_break.
    pub data Step : Collector → Collector → Type 0 where
      step : {c d : Collector} (e : Event) → c.running ≡ true → handle e c ≡ some d → Step c d

    pub data Reachable (first : Collector) : Collector → Type 0 where
      start : Reachable first first
      next : {c d : Collector} → Reachable first c → Step c d → Reachable first d
