-- ===== src/Tests/Machines.antt =====
-- What a machine finds out of itself and sends, and what the server writes of it to the database and
-- to the viewers.
use pfstrase.Prelude.{
  ℕ, ◌-◌, ◌≤◌, String, ◌≡◌, refl, Option, none, some, List, [], ◌∷◌, ◌==◌, arith, pos,
  if◌then◌else◌, ◌⊎◌, strstr, snprintf, format, snprintf_format,
}
use pfstrase.Collect.{Machine, Scanned}
use pfstrase.Collect.Exports.{oss, mds}
use pfstrase.Collect.Devices.{DeviceInfo}
use pfstrase.Collect.Discover.{
  device, Host, class_of, fits_words, find_class, find_nid, discover_nid, devices_discover,
}
use pfstrase.Collect.Discover.Found.{class_name, devices_discover-class_name}
use pfstrase.Collect.Send.{send_loop}
use pfstrase.Collect.Send.Ends.{send_loop-ends}

-- The files of a server.
abbrev files : String → Option (List String)
files path =
    if path == "/proc/fs/lustre/devices"
    then some ("mgc" ∷ "obdfilter" ∷ "mdt" ∷ [])
    else if path == "/proc/sys/lnet/nis"
    then some ("10@o2ib" ∷ [])
    else none

abbrev machine : Machine
machine = record {
  opendir = λ path. none;
  fopen = files;
  scan_stats = λ line. Scanned.unmatched;
  scan_number = λ lines. none;
  scan_word = λ lines. none;
  scan_numbers = λ line. [];
}

abbrev host : Host
host = record {
  clock = some (pos 1700000000, pos 0);
  gethostname = "oss1";
  scan_device = λ line. device "UP" line "scratch" "scratch_UUID";
  scan_nid = λ line. some line;
}

abbrev found : DeviceInfo
found = record {
  tv_sec = pos 1700000000;
  tv_nsec = pos 0;
  hostname = "oss1";
  nid = "10@o2ib";
  jid = "-";
  uid = "-";
  llite_path = "/proc/fs/lustre/llite";
  osc_path = "/proc/fs/lustre/osc";
  oss_nid_path = "/proc/fs/lustre/osc";
  class_str = "oss";
  class = oss;
}

devices_discover-class_name_example :
    (found.class_str ≡ class_name found.class) ⊎ ((found.class_str ≡ "") × (found.class ≡ mds))
unfolding devices_discover find_class find_nid discover_nid class_of fits_words snprintf
    snprintf_format format strstr
devices_discover-class_name_example = devices_discover-class_name machine host found refl

-- A network that takes what it is given.
send_loop-ends_example : (q : ℕ) × (send_loop (λ q n. n) 4 3 0 ≡ some q) × (q ≤ 3) × (3 - q ≡ 0)
send_loop-ends_example =
    send_loop-ends (λ q n. n) 4 3 0 (λ q n. omega arith) (omega arith) (omega arith)
