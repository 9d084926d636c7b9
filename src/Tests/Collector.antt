-- ===== src/Tests/Collector.antt =====
-- The collector, and the files that the programs read their settings from.
use pfstrase.Prelude.{
  String, ◌≡◌, ◌≢◌, refl, true, Option, none, some, List, [], ◌∷◌, ◌==◌, if◌then◌else◌, ℤ,
}
use pfstrase.Collect.{Dirent, Machine, summed, is_space}
use pfstrase.Collect.Units.{UnitsFit}
use pfstrase.Prelude.{some_inj, arith}
use pfstrase.Conf.{strsep}
use pfstrase.Collect.Exports.{oss, osc, collect_exports}
use pfstrase.Collect.Exports.Keys.{AllExports, collect_exports-AllExports}
use pfstrase.Conf.{Settings, collector, read_lines}
use pfstrase.Conf.Terminated.{ends_line, read_lines-terminated}
use pfstrase.Prelude.{pos, snprintf}
use pfstrase.Json.Sample.{text}
use pfstrase.Stats.Host.{update_host_entry}
use pfstrase.Stats.Host.Entries.{field_of}
use pfstrase.Collect.Devices.{DeviceInfo}
use pfstrase.Collect.Report.{collect_devices}
use pfstrase.Collect.Report.Accepted.{update_host_entry-collect_devices}
use pfstrase.Tests.Data.{J, no_hosts}

-- One target with one client.
abbrev directory : String → Option (List Dirent)
directory path =
    if path == "/proc/fs/lustre/obdfilter"
    then some (record { is_dir = true; d_name = "scratch-OST0001" } ∷ [])
    else if path == "/proc/fs/lustre/obdfilter/scratch-OST0001/exports"
    then some (record { is_dir = true; d_name = "10@o2ib" } ∷ [])
    else none

abbrev pub machine : Machine
machine = record {
  opendir = directory;
  fopen = λ path. some ("write 40 samples [bytes] 1 4096 163840\n" ∷ []);
  scan_stats = λ line. summed 40 "[bytes]" 163840;
  scan_number = λ lines. none;
  scan_word = λ lines. none;
  scan_numbers = λ line. [];
}

machine-UnitsFit : UnitsFit machine
unfolding is_space strsep
machine-UnitsFit path lines opened = rw (← some_inj opened) (omega arith, tt)

server_class : oss ≢ osc
server_class e = cc

collect_exports-AllExports_example :
    (rc : J.Json × ℤ) × (collect_exports J machine oss J.new_array ≡ some rc)
    × AllExports J machine "oss" rc.0
collect_exports-AllExports_example =
    collect_exports-AllExports J machine oss machine-UnitsFit server_class

abbrev pub collector_settings : Settings
collector_settings = record {
  server = none;
  port = "8312";
  dbserver = none;
  dbname = none;
  dbuser = none;
  db_interval = "";
  shm_interval = "";
  frequency = "300";
}

read_lines-terminated_example :
    (t : Settings) × (read_lines
        (λ text. some text)
        collector
        ("server oss1\n" ∷ "port\n" ∷ [])
        collector_settings
      ≡ some t)
unfolding ends_line
read_lines-terminated_example =
    read_lines-terminated (λ text. some text) collector ("server oss1\n" ∷ "port\n" ∷ [])
      collector_settings (refl, (refl, tt))

abbrev pub device : DeviceInfo
device = record {
  tv_sec = pos 1700000000;
  tv_nsec = pos 0;
  hostname = "oss1";
  nid = "2@o2ib";
  jid = "-";
  uid = "-";
  llite_path = "";
  osc_path = "";
  oss_nid_path = "";
  class_str = "oss";
  class = oss;
}

update_host_entry-collect_devices_example :
    (rpc data_json : J.Json) × (collect_devices J machine none (λ n. pos n) device J.new_object
      ≡ some rpc)
    × (J.object_get_ex rpc "data" ≡ some data_json)
    × (field_of J (update_host_entry J no_hosts rpc).0 "oss1" "data" ≡ some data_json)
    × (field_of J (update_host_entry J no_hosts rpc).0 "oss1" "hid" ≡ some (text "oss1"))
    × (field_of J (update_host_entry J no_hosts rpc).0 "oss1" "obdclass" ≡ some (text "oss"))
unfolding snprintf
update_host_entry-collect_devices_example =
    update_host_entry-collect_devices J machine none (λ n. pos n) device machine-UnitsFit
      server_class no_hosts
