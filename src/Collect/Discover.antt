-- ===== src/Collect/Discover.antt =====
-- client/lfs_utils.c, devices_discover: what the collector finds out of its machine when it is loaded.
-- `none` stands for a write outside an array, a read of one that was not written, a format string
-- that reads a missing argument, or the free of a pointer that was not set.
pub mod Found
use pfstrase.Prelude.{
  ℕ, String, Bool, true, false, ◌&&◌, Option, none, some, List, [], ◌∷◌, ◌==◌, ◌>>=◌, ℤ, pos, len,
  ltb, strstr, snprintf, snprintf_format, if◌then◌else◌,
}
use pfstrase.Collect.{Machine}
use pfstrase.Collect.Exports.{DeviceClass, mds, oss, osc}
use pfstrase.Collect.Devices.{DeviceInfo}

-- What `sscanf(line, "%llu %s %s %s %s %llu", …)` reads of a line: the words of `%s` that it got to, or
-- the state, the type, the detail and the uuid where all six fields match.
pub data Device : Type 0 where
  partial : List String → Device
  device : String → String → String → String → Device

-- What else discovery calls: clock_gettime (`none` where it fails), gethostname, and sscanf on a
-- line of devices and, for `"%s %*s"`, on a line of node ids.
pub record Host : Type 0 where
  pub clock : Option (ℤ × ℤ)
  pub gethostname : String
  pub scan_device : String → Device
  pub scan_nid : String → Option String

-- `struct device_info info`, before anything is known.
abbrev pub initial_info : DeviceInfo
initial_info = record {
  tv_sec = pos 0;
  tv_nsec = pos 0;
  hostname = "";
  nid = "-";
  jid = "-";
  uid = "-";
  llite_path = "";
  osc_path = "";
  oss_nid_path = "";
  class_str = "";
  class = mds;
}

-- Words and the sizes of their arrays, which also take a zero.
unfoldable pub fits_words : List String → List ℕ → Bool
fits_words [] sizes = true
fits_words (word ∷ words) [] = true
fits_words (word ∷ words) (size ∷ sizes) =
    let rest = fits_words words sizes in ltb (len word) size && rest

-- `char state[32]`, `char type[32]`, `char detail[64]` and `char uuid[64]`
abbrev pub fits_device : List String → Bool
fits_device words = fits_words words (32 ∷ 32 ∷ 64 ∷ 64 ∷ [])

-- The types of devices that tell the class of the machine.
unfoldable pub class_of : String → Option (DeviceClass × String)
class_of type =
    if type == "mdt"
    then some (mds, "mds")
    else if type == "obdfilter"
    then some (oss, "oss")
    else if type == "osc"
    then some (osc, "osc")
    else none

abbrev set_class : Option (DeviceClass × String) → DeviceInfo → DeviceInfo
set_class none info = info
set_class (some (class, class_str)) info = record info { class = class; class_str = class_str }

-- The first file that opens, with the directories that go with it.
abbrev Paths : Type 0
Paths = String × String × String

abbrev set_paths : Paths → DeviceInfo → DeviceInfo
set_paths (llite_path, osc_path, oss_nid_path) info = record info {
  llite_path = llite_path;
  osc_path = osc_path;
  oss_nid_path = oss_nid_path;
}

abbrev debug_paths : Paths
debug_paths =
    ("/sys/kernel/debug/lustre/llite", "/sys/kernel/debug/lustre/osc", "/sys/fs/lustre/osc")

abbrev proc_paths : Paths
proc_paths = ("/proc/fs/lustre/llite", "/proc/fs/lustre/osc", "/proc/fs/lustre/osc")

module _ (env : Machine) (host : Host) where
  -- The class that a line names; its words are written before they are looked at.
  abbrev line_class : Device → Option (Option (DeviceClass × String))
  line_class (partial words) = if fits_device words then some none else none
  line_class (device state type detail uuid) =
      if fits_device (state ∷ type ∷ detail ∷ uuid ∷ []) then some (class_of type) else none

  -- The first loop, which ends with the first line that names a class.
  unfoldable pub find_class : List String → Option (Option (DeviceClass × String))
  find_class [] = some none
  find_class (line ∷ rest) = do
    found ← line_class (host.scan_device line)
    elim found [ none ↦ find_class rest | some c ↦ some (some c) ]

  -- `char nid[32]`: the word of a line, or that of the line before where the line has none.
  abbrev scanned_nid : Option String → Option String → Option String
  scanned_nid (some word) old = if ltb (len word) 32 then some word else none
  scanned_nid none old = old

  -- The second loop, which ends with the first node id of an InfiniBand network.
  unfoldable pub find_nid : Option String → List String → Option (Option String)
  find_nid nid [] = some none
  find_nid nid (line ∷ rest) = do
    word ← scanned_nid (host.scan_nid line) nid
    if strstr word "@o2ib" then some (some word) else find_nid (some word) rest

  -- `snprintf(info.nid, sizeof(info.nid), nid)`
  abbrev set_nid : Option String → DeviceInfo → Option DeviceInfo
  set_nid none info = some info
  set_nid (some nid) info = do text ← snprintf_format 32 nid; some (record info { nid = text })

  -- `Get local nid`; the message for a file that does not open prints nid_path, which is not set.
  unfoldable pub discover_nid : Option (List String) → DeviceInfo → Option DeviceInfo
  discover_nid none info = none
  discover_nid (some lines) info = do nid ← find_nid none lines; set_nid nid info

  abbrev first_open : String → String → Option (Bool × List String)
  first_open path other = elim (env.fopen path) [
    | some lines ↦ some (true, lines)
    | none ↦ elim (env.fopen other) [ some lines ↦ some (false, lines) | none ↦ none ]
  ]

  abbrev pub devices_file : Option (Bool × List String)
  devices_file = first_open "/sys/kernel/debug/lustre/devices" "/proc/fs/lustre/devices"

  abbrev pub nis_file : Option (Bool × List String)
  nis_file = first_open "/sys/kernel/debug/lnet/nis" "/proc/sys/lnet/nis"

  abbrev discover_devices : Option (Bool × List String) → DeviceInfo → Option DeviceInfo
  discover_devices none info = some info
  discover_devices (some (is_debug, lines)) info = do
    class ← find_class lines
    let known = set_class class (set_paths (if is_debug then debug_paths else proc_paths) info)
    discover_nid (do file ← nis_file; some file.1) known

  abbrev discover_at : Option (ℤ × ℤ) → Option DeviceInfo
  discover_at none = none
  discover_at (some (tv_sec, tv_nsec)) = discover_devices devices_file (record initial_info {
    tv_sec = tv_sec;
    tv_nsec = tv_nsec;
    hostname = snprintf 64 host.gethostname;
  })

  unfoldable pub devices_discover : Option DeviceInfo
  devices_discover = discover_at host.clock
