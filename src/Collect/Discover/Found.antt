-- ===== src/Collect/Discover/Found.antt =====
-- Which line decides the class and which the node id.
use pfstrase.Prelude.{
  String, Bool, true, false, ◌≡◌, refl, sym, ap, ◌∙◌, Option, none, some, List, [], ◌∷◌, ◌++◌, ◌==◌,
  ◌>>=◌, >>=-eq-some, some_inj, Option-cases, inl, inr, ◌⊎◌, All, snprintf_format, snprintf, ℤ,
  if◌then◌else◌,
}
use pfstrase.Collect.{Machine}
use pfstrase.Collect.Exports.{DeviceClass, mds, oss, osc}
use pfstrase.Collect.Devices.{DeviceInfo}
use pfstrase.Collect.Discover.{
  Device, partial, device, Host, initial_info, class_of, set_class, line_class, find_class,
  find_nid, fits_device, set_paths, debug_paths, proc_paths, Paths, discover_at, devices_discover,
  discover_devices, discover_nid, set_nid, devices_file, nis_file,
}

-- How a class is called.
abbrev pub class_name : DeviceClass → String
class_name mds = "mds"
class_name oss = "oss"
class_name osc = "osc"

if_named :
    (b : Bool) (c class : DeviceClass) (name : String) (other : Option (DeviceClass × String))
    → (other ≡ some (class, name) → name ≡ class_name class)
    → (if b then some (c, class_name c) else other) ≡ some (class, name)
    → name ≡ class_name class
if_named true c class name other rest found =
    let same = some_inj found in sym (ap (λ p. p.1) same) ∙ ap (λ p. class_name p.0) same
if_named false c class name other rest found = rest found

class_of-class_name :
    (type : String) (class : DeviceClass) (name : String)
    → class_of type ≡ some (class, name)
    → name ≡ class_name class
unfolding class_of
class_of-class_name type class name found =
    if_named (type == "mdt") mds class name _
      (if_named (type == "obdfilter") oss class name _
        (if_named (type == "osc") osc class name none (λ e. cc)))
      found

module _ (env : Machine) (host : Host) where
  -- A line that names no class.
  abbrev pub IsSilent : String → Type 0
  IsSilent line = line_class env host (host.scan_device line) ≡ some none

  -- A line that names one.
  abbrev pub Names : DeviceClass → String → Type 0
  Names class line =
      line_class env host (host.scan_device line) ≡ some (some (class, class_name class))

  find_class-first :
      (before : List String) (line : String) (rest : List String) (class : DeviceClass)
      → All IsSilent before
      → Names class line
      → find_class env host (before ++ line ∷ rest) ≡ some (some (class, class_name class))
  unfolding find_class
  find_class-first [] line rest class silent names = rw names refl
  find_class-first (b ∷ before) line rest class silent names =
      rw silent.0 (find_class-first before line rest class silent.1 names)

  if_named_line :
      (b : Bool) (named : Option (DeviceClass × String)) (c : DeviceClass × String)
      → (if b then some named else none) ≡ some (some c)
      → named ≡ some c
  if_named_line true named c e = some_inj e
  if_named_line false named c e = cc

  line_class-class_of :
      (d : Device) (c : DeviceClass × String)
      → line_class env host d ≡ some (some c)
      → (type : String) × (class_of type ≡ some c)
  line_class-class_of (partial words) c named =
      let never = if_named_line (fits_device words) none c named in cc
  line_class-class_of (device state type detail uuid) c named = (
    type,
    if_named_line (fits_device (state ∷ type ∷ detail ∷ uuid ∷ [])) (class_of type) c named,
  )

  find_class-class_of :
      (lines : List String) (c : DeviceClass × String)
      → find_class env host lines ≡ some (some c)
      → (type : String) × (class_of type ≡ some c)
  unfolding find_class
  find_class-class_of [] c found = cc
  find_class-class_of (line ∷ rest) c found =
      let (here, looked, more) =
        >>=-eq-some (line_class env host (host.scan_device line))
          (λ found. elim found [ none ↦ find_class env host rest | some c ↦ some (some c) ])
          found in
      elim (Option-cases here) [
        | inl silent ↦ find_class-class_of rest c (rw (← more, silent) refl)
        | inr (c', named) ↦
            let same : some (some c') ≡ some (some c) = rw (← more, named) refl in
            line_class-class_of (host.scan_device line) c (looked ∙ ap some named ∙ same)
      ]

  -- The nid does not change the class.
  discover_nid-class :
      (file : Option (List String)) (info info' : DeviceInfo)
      → discover_nid env host file info ≡ some info'
      → (info'.class ≡ info.class) × (info'.class_str ≡ info.class_str)
  unfolding discover_nid
  discover_nid-class none info info' done = cc
  discover_nid-class (some lines) info info' done =
      let (nid, found, set) =
        >>=-eq-some (find_nid env host none lines) (λ nid. set_nid env host nid info) done in
      elim (Option-cases nid) [
        | inl unset ↦
            let same : some info ≡ some info' = rw (← set, unset) refl in
            rw (← some_inj same) (refl, refl)
        | inr (word, is_word) ↦
            let set' : set_nid env host (some word) info ≡ some info' = rw (← set, is_word) refl in
            let (text, printed, same) =
              >>=-eq-some {B = DeviceInfo} (snprintf_format 32 word)
                (λ text. some (record info { nid = text })) set' in
            rw (← some_inj same) (refl, refl)
      ]

  set_class-set_paths :
      (found : Option (DeviceClass × String)) (paths : Paths) (info : DeviceInfo)
      → ((set_class found (set_paths paths info)).class ≡ (set_class found info).class)
        × ((set_class found (set_paths paths info)).class_str ≡ (set_class found info).class_str)
  set_class-set_paths none paths info = (refl, refl)
  set_class-set_paths (some c) paths info = (refl, refl)

  -- What is known once the class was looked for.
  discover_devices-class :
      (is_debug : Bool) (lines : List String) (info info' : DeviceInfo)
      → discover_devices env host (some (is_debug, lines)) info ≡ some info'
      → (found : Option (DeviceClass × String)) × (find_class env host lines ≡ some found)
        × (info'.class ≡ (set_class found info).class)
        × (info'.class_str ≡ (set_class found info).class_str)
  discover_devices-class is_debug lines info info' done =
      let paths = if is_debug then debug_paths else proc_paths in
      let (found, looked, more) =
        >>=-eq-some {B = DeviceInfo} (find_class env host lines)
          (λ found.
            discover_nid env host (nis_file env host >>= λ file. some file.1)
              (set_class found (set_paths paths info)))
          done in
      let (same, same_str) =
        discover_nid-class (nis_file env host >>= λ file. some file.1)
          (set_class found (set_paths paths info)) info' more in
      let paths_aside = set_class-set_paths found paths info in
      (found, looked, same ∙ paths_aside.0, same_str ∙ paths_aside.1)

  -- Before anything is found.
  abbrev info_at : ℤ × ℤ → DeviceInfo
  info_at (tv_sec, tv_nsec) = record initial_info {
    tv_sec = tv_sec;
    tv_nsec = tv_nsec;
    hostname = snprintf 64 host.gethostname;
  }

  discover_at-info :
      (clock : Option (ℤ × ℤ)) (info : DeviceInfo)
      → discover_at env host clock ≡ some info
      → (time : ℤ × ℤ) × (discover_devices env host (devices_file env host) (info_at time)
          ≡ some info)
  discover_at-info none info done = cc
  discover_at-info (some time) info done = (time, done)

  -- The first line of the devices' file that names a class decides the class of the machine and its name,
  -- whatever lines follow it and whatever the node ids are.
  pub devices_discover-first :
      (is_debug : Bool) (before : List String) (line : String) (rest : List String)
      (class : DeviceClass) (info : DeviceInfo)
      → devices_file env host ≡ some (is_debug, before ++ line ∷ rest)
      → All IsSilent before
      → Names class line
      → devices_discover env host ≡ some info
      → (info.class ≡ class) × (info.class_str ≡ class_name class)
  unfolding devices_discover
  devices_discover-first is_debug before line rest class info file silent names done =
      let (time, ran) = discover_at-info host.clock info done in
      let (found, looked, is_class, is_str) =
        discover_devices-class is_debug (before ++ line ∷ rest) (info_at time) info
          (ap (λ f. discover_devices env host f (info_at time)) (sym file) ∙ ran) in
      let named : found ≡ some (class, class_name class) =
        some_inj (sym looked ∙ find_class-first before line rest class silent names) in
      (
        is_class ∙ ap (λ f. (set_class f (info_at time)).class) named,
        is_str ∙ ap (λ f. (set_class f (info_at time)).class_str) named,
      )

  -- Wherever discovery returns, the class has the name of the class, or no name where no device told
  -- it: then the class is that of a metadata server.
  pub devices_discover-class_name :
      (info : DeviceInfo)
      → devices_discover env host ≡ some info
      → (info.class_str ≡ class_name info.class) ⊎ ((info.class_str ≡ "") × (info.class ≡ mds))
  unfolding devices_discover
  devices_discover-class_name info done =
      let (time, ran) = discover_at-info host.clock info done in
      elim (Option-cases (devices_file env host)) [
        | inl closed ↦
            let same : some (info_at time) ≡ some info = rw (← ran, closed) refl in
            inr (rw (← some_inj same) (refl, refl))
        | inr (file, opens) ↦
            let (found, looked, is_class, is_str) =
              discover_devices-class file.0 file.1 (info_at time) info
                (ap (λ f. discover_devices env host f (info_at time)) (sym opens) ∙ ran) in
            elim (Option-cases found) [
              | inl nothing ↦ inr (
                is_str ∙ ap (λ f. (set_class f (info_at time)).class_str) nothing,
                is_class ∙ ap (λ f. (set_class f (info_at time)).class) nothing,
              )
              | inr (c, named) ↦
                  let (type, of_type) = find_class-class_of file.1 c (looked ∙ ap some named) in
                  inl (
                    is_str
                    ∙ ap (λ f. (set_class f (info_at time)).class_str) named
                    ∙ class_of-class_name type c.0 c.1 of_type
                    ∙ ap class_name
                        (sym (is_class ∙ ap (λ f. (set_class f (info_at time)).class) named)))
            ]
      ]
