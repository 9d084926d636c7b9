-- ===== src/Programs/Precedence.antt =====
-- Which of the options, the configuration file and the defaults a program goes by.
use pfstrase.Prelude.{
  ℤ, negsuc, ℕ, String, ◌≡◌, refl, sym, ap, ◌∙◌, Option, none, some, List, [], ◌∷◌, or_else,
  >>=-eq-some, some_inj, ◌⊎◌, inl, inr, Option-cases,
}
use pfstrase.Conf.{
  Settings, Program, map_server, map_server_psql, sql_client, collector, ConfFile, no_name,
  unreadable, lines, read_conf_file, read_lines,
}
use pfstrase.Conf.LastWins.{last_port, get_or_keep, port-read_lines}
use pfstrase.Programs.{
  set_interval, set_server, set_frequency, Argument, server_name, frequency, interval, conf_file,
  log_file, port_name, daemon, help, unknown, Arguments, Start, run, exit, set_argument,
  parse_arguments, default_arguments, default_settings, conf_file_of, read_settings, check_settings,
  configured, configure, default_arguments,
}

-- The port and the file of the last option that names one.
abbrev pub port_of : Argument → Option String
port_of (port_name a) = some a
port_of _ = none

abbrev pub file_of : Argument → Option String
file_of (conf_file a) = some a
file_of _ = none

abbrev pub last_option : (Argument → Option String) → List Argument → Option String
last_option f [] = none
last_option f (a ∷ rest) = or_else (last_option f rest) (f a)

-- The port of the last line of a file that names one.
abbrev pub file_port : ConfFile → Option String
file_port (lines l) = last_port l
file_port _ = none

-- The setting that an option leaves, by what it names.
Follows : Arguments → Argument → Arguments → Type 0
Follows args a next =
    (next.settings.port ≡ get_or_keep args.settings.port (port_of a))
    × (next.conf_file_name ≡ or_else (file_of a) args.conf_file_name)

run_inj : {args next : Arguments} → run args ≡ run next → args ≡ next
run_inj e = cc

-- Every other option leaves the port and the file alone.
set_interval-Follows :
    (program : Program) (a : String) (args : Arguments)
    → Follows args (interval a) (set_interval program a args)
unfolding Follows
set_interval-Follows map_server a args = (refl, refl)
set_interval-Follows map_server_psql a args = (refl, refl)
set_interval-Follows sql_client a args = (refl, refl)
set_interval-Follows collector a args = (refl, refl)

set_server-Follows :
    (program : Program) (a : String) (args : Arguments)
    → Follows args (server_name a) (set_server program a args)
unfolding Follows
set_server-Follows map_server a args = (refl, refl)
set_server-Follows map_server_psql a args = (refl, refl)
set_server-Follows sql_client a args = (refl, refl)
set_server-Follows collector a args = (refl, refl)

set_frequency-Follows :
    (program : Program) (a : String) (args : Arguments)
    → Follows args (frequency a) (set_frequency program a args)
unfolding Follows
set_frequency-Follows map_server a args = (refl, refl)
set_frequency-Follows map_server_psql a args = (refl, refl)
set_frequency-Follows sql_client a args = (refl, refl)
set_frequency-Follows collector a args = (refl, refl)

set_argument-Follows :
    (program : Program) (a : Argument) (args next : Arguments)
    → set_argument program a args ≡ run next
    → Follows args a next
unfolding set_argument Follows
set_argument-Follows program daemon args next done = rw (← run_inj done) (refl, refl)
set_argument-Follows program (conf_file a) args next done = rw (← run_inj done) (refl, refl)
set_argument-Follows program (port_name a) args next done = rw (← run_inj done) (refl, refl)
set_argument-Follows program (interval a) args next done =
    rw (← run_inj done) (set_interval-Follows program a args)
set_argument-Follows program (server_name a) args next done =
    rw (← run_inj done) (set_server-Follows program a args)
set_argument-Follows program (frequency a) args next done =
    rw (← run_inj done) (set_frequency-Follows program a args)
set_argument-Follows program (log_file a) args next done = rw (← run_inj done) (refl, refl)
set_argument-Follows program help args next done = cc
set_argument-Follows program unknown args next done = cc

pub start_cases :
    (s : Start) → ((args : Arguments) × (s ≡ run args)) ⊎ ((code : ℕ) × (s ≡ exit code))
start_cases (run args) = inl (args, refl)
start_cases (exit code) = inr (code, refl)

or_else-none : (o : Option String) → or_else o none ≡ o
or_else-none none = refl
or_else-none (some v) = refl

or_else_assoc : (a b c : Option String) → or_else a (or_else b c) ≡ or_else (or_else a b) c
or_else_assoc none b c = refl
or_else_assoc (some v) b c = refl

keep-or_else :
    (old : String) (last here : Option String)
    → get_or_keep (get_or_keep old here) last ≡ get_or_keep old (or_else last here)
keep-or_else old none here = refl
keep-or_else old (some v) here = refl

parse_arguments-last :
    (program : Program) (l : List Argument) (args args' : Arguments)
    → parse_arguments program args l ≡ run args'
    → (args'.settings.port ≡ get_or_keep args.settings.port (last_option port_of l))
      × (args'.conf_file_name ≡ or_else (last_option file_of l) args.conf_file_name)
unfolding parse_arguments Follows
parse_arguments-last program [] args args' done = rw (← run_inj done) (refl, refl)
parse_arguments-last program (a ∷ rest) args args' done =
    elim (start_cases (set_argument program a args)) [
      | inl (next, went_on) ↦
          let more : parse_arguments program next rest ≡ run args' =
            rw (← done, parse_arguments, went_on) refl in
          let (port, file) = set_argument-Follows program a args next went_on in
          let (port', file') = parse_arguments-last program rest next args' more in
          (
            port'
                ∙ rw port (keep-or_else args.settings.port (last_option port_of rest) (port_of a)),
            file'
                ∙ rw file
                    (or_else_assoc (last_option file_of rest) (file_of a) args.conf_file_name),
          )
      | inr (code, stopped) ↦
          let never : exit code ≡ run args' = rw (← done, parse_arguments, stopped) refl in cc
    ]

pub check_settings-run :
    (program : Program) (args args' : Arguments)
    → check_settings program args ≡ run args'
    → args ≡ args'
check_settings-run map_server args args' done = run_inj done
check_settings-run map_server_psql args args' done = run_inj done
check_settings-run sql_client args args' done = run_inj done
check_settings-run collector args args' done = elim (Option-cases args.settings.server) [
  | inl missing ↦ let never : exit 0 ≡ run args' = rw (← done, missing) refl in cc
  | inr (name, named) ↦ let same : run args ≡ run args' = rw (← done, named) refl in run_inj same
]

module _ (scan_double : String → Option String) (open_file : String → Option (List String)) where
  read_conf_file-port :
      (program : Program) (file : ConfFile) (s t : Settings) (rc : ℤ)
      → read_conf_file scan_double program file s ≡ some (t, rc)
      → t.port ≡ get_or_keep s.port (file_port file)
  unfolding read_conf_file
  read_conf_file-port program no_name s t rc done = ap (λ p. p.0.port) (sym (some_inj done))
  read_conf_file-port program unreadable s t rc done = ap (λ p. p.0.port) (sym (some_inj done))
  read_conf_file-port program (lines l) s t rc done =
      let (read, ran, same) =
        >>=-eq-some {B = Settings × ℤ} (read_lines scan_double program l s)
          (λ read. some (read, negsuc 0)) done in
      ap (λ p. p.0.port) (sym (some_inj same)) ∙ port-read_lines scan_double program l s read ran

  read_settings-port :
      (program : Program) (args : Arguments) (s : Settings)
      → read_settings scan_double open_file program args ≡ some s
      → s.port
        ≡ get_or_keep args.settings.port (file_port (conf_file_of open_file args.conf_file_name))
  unfolding read_settings
  read_settings-port program args s done =
      let file = conf_file_of open_file args.conf_file_name in
      let ((t, rc), read, same) =
        >>=-eq-some {B = Settings} (read_conf_file scan_double program file args.settings)
          (λ p. some p.0) done in
      rw (← some_inj same) (read_conf_file-port program file args.settings t rc read)

  -- Whichever program goes on behind its options, the port among its settings, with which the server
  -- listens and the collector connects, is that of the last line of its configuration file
  -- that names one, or else that of the last option, or else its default; the file is that of the last
  -- option that names one.
  pub configure-port :
      (program : Program) (l : List Argument) (args : Arguments)
      → configure scan_double open_file program l ≡ some (run args)
      → args.settings.port
        ≡ get_or_keep
            (get_or_keep (default_settings program).port (last_option port_of l))
            (file_port (conf_file_of open_file (last_option file_of l)))
  unfolding configure
  configure-port program l args done =
      elim (start_cases (parse_arguments program (default_arguments program) l)) [
        | inl (parsed, went_on) ↦
            let (port, file) =
              parse_arguments-last program l (default_arguments program) parsed went_on in
            let read : configured scan_double open_file program (run parsed) ≡ some (run args) =
              rw (← done, configure, went_on) refl in
            let (s, settings, checked) =
              >>=-eq-some {B = Start} (read_settings scan_double open_file program parsed)
                (λ settings. some (check_settings program (record parsed { settings = settings })))
                read in
            let same = check_settings-run program _ args (some_inj checked) in
            ap (λ a. a.settings.port) (sym same)
            ∙ read_settings-port program parsed s settings
            ∙ rw (port, file, or_else-none (last_option file_of l)) refl
        | inr (code, stopped) ↦
            let never : some (exit code) ≡ some (run args) = rw (← done, configure, stopped) refl in
            cc
      ]
