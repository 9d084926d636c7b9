-- ===== src/Tests/Programs.antt =====
-- The programs: their settings, the loop of the server, and their pid file.
use pfstrase.Prelude.{ℕ, String, ◌≡◌, refl, true, false, Option, some, List, [], ◌∷◌}
use pfstrase.Conf.{
  collector, map_server, strsep, is_delimiter, setting_of, database_key, apply_setting, chop,
  read_line, read_lines, read_conf_file,
}
use pfstrase.Conf.LastWins.{get_or_keep}
use pfstrase.Programs.{
  Argument, port_name, conf_file, Arguments, default_arguments, default_settings, set_argument,
  parse_arguments, conf_file_of, read_settings, configure,
}
use pfstrase.Programs.Precedence.{last_option, port_of, file_of, file_port, configure-port}
use pfstrase.Programs.Server.{
  sock_rpc_cb, Server, start, next, step, signal_cb_hup, start_server, started, handle,
}
use pfstrase.Rpc.{packet, sock_rpc, recv_loop}
use pfstrase.Rpc.Listen.{accept, socket_listen}
use pfstrase.Rpc.Listen as Listen
use pfstrase.Programs.Server.Deaf.{Reachable-no_hosts}
use pfstrase.Programs.Server.Loop.{IsInStep, Reachable-IsInStep}
use pfstrase.Programs.Daemon.{Fork, child, Calls, Machines, launch, daemonize, write_pid}
use pfstrase.Programs.Daemon as Daemon
use pfstrase.Programs.Daemon.Single.{IsHeld, Reachable-IsHeld}
use pfstrase.Programs.Collector as Loops
use pfstrase.Programs.Collector.{Collector, start_collector}
use pfstrase.Programs.Collector.Loop.{IsReady, Reachable-IsReady}
use pfstrase.Tests.Collector.{device}
use pfstrase.Prelude.{pos}
use pfstrase.Tests.Data.{listening, J}

abbrev scan_double : String → Option String
scan_double line = some line

abbrev open_file : String → Option (List String)
open_file name = some ("server oss1\n" ∷ "port 8400\n" ∷ "sharedmem_interval 5\n" ∷ [])

abbrev arguments : List Argument
arguments = port_name "8500" ∷ conf_file "/etc/pfstrase.conf" ∷ []

abbrev configured_arguments : Arguments
configured_arguments = record {
  settings = record (default_settings collector) { server = some "oss1"; port = "8400" };
  daemonmode = false;
  conf_file_name = some "/etc/pfstrase.conf";
}

configure-port_example :
    "8400"
    ≡ get_or_keep
        (get_or_keep (default_settings collector).port (last_option port_of arguments))
        (file_port (conf_file_of open_file (last_option file_of arguments)))
unfolding configure parse_arguments set_argument read_settings read_conf_file read_lines read_line
    strsep is_delimiter setting_of apply_setting chop default_settings
configure-port_example =
    configure-port scan_double open_file collector arguments configured_arguments refl

abbrev shown : J.Double → String
shown d = "3.000000"

abbrev server_arguments : Arguments
server_arguments = record (default_arguments map_server) {
  conf_file_name = some "/etc/pfstrase.conf";
}

abbrev server : Server J shown
server = started J shown map_server listening server_arguments

-- The server once it has read its file again.
abbrev reloaded : Server J shown
reloaded = record server {
  arguments = record server_arguments {
    settings = record (default_settings map_server) { port = "8400"; shm_interval = "5\n" };
  };
  timers = record server.timers { shm_repeat = "5\n"; pq_repeat = "30"; pq_active = true };
}

Reachable-IsInStep_example : IsInStep J shown reloaded
unfolding start_server handle read_settings read_conf_file read_lines read_line strsep is_delimiter
    setting_of database_key apply_setting chop default_settings
Reachable-IsInStep_example =
    Reachable-IsInStep J shown scan_double open_file (λ info. true) map_server listening
      server_arguments server reloaded refl (next start (step signal_cb_hup refl refl refl))

-- A machine on which another program has the port.
abbrev in_use : Listen.Calls
in_use = record listening { bind = false }

abbrev deaf : Server J shown
deaf = started J shown map_server in_use server_arguments

Reachable-no_hosts_example :
    (deaf.socket.listens ≡ false) × (J.entries deaf.maps.host_map ≡ []) × (deaf.maps.nid_map ≡ [])
unfolding start_server handle accept sock_rpc recv_loop socket_listen
Reachable-no_hosts_example =
    Reachable-no_hosts J shown scan_double open_file (λ info. true) map_server in_use
      server_arguments deaf deaf ((_, refl), refl) refl
      (next start (step (sock_rpc_cb (packet "{}" ∷ [])) refl refl refl))

-- A collector that got SIGHUP.
abbrev collecting : Collector
collecting = record (start_collector device configured_arguments) {
  arguments = record configured_arguments {
    settings = record configured_arguments.settings { server = some "oss1" };
  };
}

Reachable-IsReady_example : IsReady scan_double open_file collecting
unfolding configure parse_arguments set_argument read_settings read_conf_file read_lines read_line
    strsep is_delimiter setting_of apply_setting chop default_settings Loops.handle start_collector
Reachable-IsReady_example =
    Reachable-IsReady scan_double open_file J (λ n. pos n) arguments configured_arguments device
      collecting refl (Loops.next Loops.start (Loops.step Loops.signal_cb_hup refl refl))

abbrev calls : Calls
calls = record {
  first_fork = child;
  setsid_fails = false;
  second_fork = child;
  opens = true;
  getpid = 7;
}

abbrev print_pid : ℕ → String
print_pid pid = "7\n"

Reachable-IsHeld_example :
    IsHeld print_pid (record { daemons = 7 ∷ []; file = record { holder = some 7; text = "7\n" } })
unfolding daemonize write_pid
Reachable-IsHeld_example =
    Reachable-IsHeld print_pid "/var/run/pfstrase_client.pid" _
      (Daemon.next Daemon.start (launch calls))
