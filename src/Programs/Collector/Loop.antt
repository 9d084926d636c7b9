-- ===== src/Programs/Collector/Loop.antt =====
-- What holds in the collector between two reports.
use pfstrase.Prelude.{
  ℕ, String, ◌≡◌, refl, sym, ap, ◌∙◌, Option, none, some, List, [], ◌∷◌, ◌++◌, >>=-eq-some,
  some_inj, ◌>>=◌, ℤ, negsuc, Option-cases, inl, inr,
}
use pfstrase.Json.{JsonC}
use pfstrase.Collect.Devices.{DeviceInfo}
use pfstrase.Collect.Send.{sock_send_data}
use pfstrase.Conf.{
  Settings, collector, Setting, strsep, is_delimiter, chop, setting_of, apply_setting, apply_line,
  read_line, read_lines, ConfFile, no_name, unreadable, lines, read_conf_file,
}
use mathlib.Core.Path.{subst}
use pfstrase.Programs.{
  Argument, Arguments, Start, run, exit, check_settings, conf_file_of, configured, configure,
  read_settings, parse_arguments, default_arguments,
}
use pfstrase.Programs.Precedence.{check_settings-run, start_cases}
use pfstrase.Programs.Collector.{
  Surroundings, Event, sock_timer_cb, signal_cb_int, signal_cb_hup, Collector, start_collector,
  set_time, send_to, handle, step, Reachable, start, next,
}

abbrev HasServer : Settings → Type 0
HasServer s = (name : String) × (s.server ≡ some name)

module _ (scan_double : String → Option String) (open_file : String → Option (List String)) where
  -- A text that is cut and stored leaves the server, or is the server.
  stored :
      (cut : Option String) (write : String → Settings) (t : Settings)
      → ((v : String) → HasServer (write v))
      → (cut >>= λ v. some (write v)) ≡ some t
      → HasServer t
  stored none write t has done = cc
  stored (some v) write t has done = rw (← some_inj done) (has v)

  apply_setting-HasServer :
      (k : Setting) (line : String) (s t : Settings)
      → HasServer s
      → apply_setting scan_double k line s ≡ some t
      → HasServer t
  unfolding apply_setting
  apply_setting-HasServer Setting.server line s t h done =
      stored (chop line) (λ v. record s { server = some v }) t (λ v. (v, refl)) done
  apply_setting-HasServer Setting.port line s t h done =
      stored (chop line) (λ v. record s { port = v }) t (λ v. h) done
  apply_setting-HasServer Setting.dbserver line s t h done =
      stored (chop line) (λ v. record s { dbserver = some v }) t (λ v. h) done
  apply_setting-HasServer Setting.dbname line s t h done =
      stored (chop line) (λ v. record s { dbname = some v }) t (λ v. h) done
  apply_setting-HasServer Setting.dbuser line s t h done =
      stored (chop line) (λ v. record s { dbuser = some v }) t (λ v. h) done
  apply_setting-HasServer _ line s t h done = rw (← some_inj done) h

  apply_line-HasServer :
      (p : String × Option String) (s t : Settings)
      → HasServer s
      → apply_line scan_double collector p s ≡ some t
      → HasServer t
  apply_line-HasServer (key, none) s t h done = rw (← some_inj done) h
  apply_line-HasServer (key, some line) s t h done =
      apply_setting-HasServer (setting_of collector key) line s t h done

  read_lines-HasServer :
      (l : List String) (s t : Settings)
      → HasServer s
      → read_lines scan_double collector l s ≡ some t
      → HasServer t
  unfolding read_lines read_line
  read_lines-HasServer [] s t h done = rw (← some_inj done) h
  read_lines-HasServer (line ∷ rest) s t h done =
      let (after, read, more) =
        >>=-eq-some (read_line scan_double collector line s)
          (λ after. read_lines scan_double collector rest after) done in
      read_lines-HasServer rest after t
        (apply_line-HasServer (strsep is_delimiter line) s after h read) more

  read_conf_file-HasServer :
      (file : ConfFile) (s t : Settings) (rc : ℤ)
      → HasServer s
      → read_conf_file scan_double collector file s ≡ some (t, rc)
      → HasServer t
  unfolding read_conf_file
  read_conf_file-HasServer no_name s t rc h done = subst HasServer (ap (λ p. p.0) (some_inj done)) h
  read_conf_file-HasServer unreadable s t rc h done =
      subst HasServer (ap (λ p. p.0) (some_inj done)) h
  read_conf_file-HasServer (lines l) s t rc h done =
      let (read, ran, same) =
        >>=-eq-some {B = Settings × ℤ} (read_lines scan_double collector l s)
          (λ read. some (read, negsuc 0)) done in
      subst HasServer (ap (λ p. p.0) (some_inj same)) (read_lines-HasServer l s read h ran)

  read_settings-HasServer :
      (args : Arguments) (s : Settings)
      → HasServer args.settings
      → read_settings scan_double open_file collector args ≡ some s
      → HasServer s
  unfolding read_settings
  read_settings-HasServer args s h done =
      let file = conf_file_of open_file args.conf_file_name in
      let ((t, rc), read, same) =
        >>=-eq-some {B = Settings} (read_conf_file scan_double collector file args.settings)
          (λ p. some p.0) done in
      subst HasServer (some_inj same) (read_conf_file-HasServer file args.settings t rc h read)

  check_settings-HasServer :
      (args args' : Arguments)
      → check_settings collector args ≡ run args'
      → HasServer args'.settings
  check_settings-HasServer args args' done = elim (Option-cases args.settings.server) [
    | inl missing ↦ let never : exit 0 ≡ run args' = rw (← done, missing) refl in cc
    | inr (name, named) ↦
        subst (λ a. HasServer a.settings) (check_settings-run collector args args' done)
          (name, named)
  ]

  configure-HasServer :
      (l : List Argument) (args : Arguments)
      → configure scan_double open_file collector l ≡ some (run args)
      → HasServer args.settings
  unfolding configure
  configure-HasServer l args done =
      elim (start_cases (parse_arguments collector (default_arguments collector) l)) [
        | inl (parsed, went_on) ↦
            let read : configured scan_double open_file collector (run parsed) ≡ some (run args) =
              rw (← done, configure, went_on) refl in
            let (s, settings, checked) =
              >>=-eq-some {B = Start} (read_settings scan_double open_file collector parsed)
                (λ s. some (check_settings collector (record parsed { settings = s }))) read in
            check_settings-HasServer _ args (some_inj checked)
        | inr (code, stopped) ↦
            let never : some (exit code) ≡ some (run args) = rw (← done, configure, stopped) refl in
            cc
      ]

  -- The timer repeats as often as the settings say, and there is a server to send to.
  pub record IsReady (c : Collector) : Type 0 where
    pub server : HasServer c.arguments.settings
    pub timer : c.timer_repeat ≡ c.arguments.settings.frequency

  module _ (J : JsonC) (to_float : ℕ → J.Double) where
    send_to-keeps :
        (server : Option String) (around : Surroundings) (c d : Collector)
        → send_to J to_float server around c ≡ some d
        → (c.arguments ≡ d.arguments) × (c.timer_repeat ≡ d.timer_repeat)
    send_to-keeps none around c d done = cc
    send_to-keeps (some server) around c d done =
        let info = set_time around.clock c.info in
        let port = c.arguments.settings.port in
        let (sent, ran, same) =
          >>=-eq-some {B = Collector}
            (sock_send_data J around.machine around.sysinfo to_float (around.network server port)
              info)
            (λ sent.
              some (record c { info = info; reports = c.reports ++ (server, port, sent) ∷ [] }))
            done in
        (ap (λ d. d.arguments) (some_inj same), ap (λ d. d.timer_repeat) (some_inj same))

    handle-IsReady :
        (e : Event) (c d : Collector)
        → IsReady c
        → handle J to_float scan_double open_file e c ≡ some d
        → IsReady d
    unfolding handle
    handle-IsReady (sock_timer_cb around) c d h done =
        let (arguments, repeat) = send_to-keeps c.arguments.settings.server around c d done in
        record {
          server = subst (λ a. HasServer a.settings) arguments h.server;
          timer = sym repeat ∙ h.timer ∙ ap (λ a. a.settings.frequency) arguments;
        }
    handle-IsReady signal_cb_int c d h done =
        rw (← some_inj done) (record { server = h.server; timer = h.timer })
    handle-IsReady signal_cb_hup c d h done =
        let (settings, read, same) =
          >>=-eq-some {B = Collector} (read_settings scan_double open_file collector c.arguments)
            (λ settings. some (record c {
              arguments = record c.arguments { settings = settings };
              timer_repeat = settings.frequency;
            }))
            done in
        subst IsReady (some_inj same) (record {
          server = read_settings-HasServer c.arguments settings h.server read;
          timer = refl;
        })

    -- Once the options and the file of the collector are accepted, then after any sequence of reports and
    -- signals, whatever its configuration file says by then, it has a server to send to, and its timer
    -- has the interval of the settings.
    pub Reachable-IsReady :
        (l : List Argument) (args : Arguments) (info : DeviceInfo) (c : Collector)
        → configure scan_double open_file collector l ≡ some (run args)
        → Reachable J to_float scan_double open_file (start_collector info args) c
        → IsReady c
    unfolding start_collector
    Reachable-IsReady l args info _ ran start = record {
      server = configure-HasServer l args ran;
      timer = refl;
    }
    Reachable-IsReady l args info _ ran (next before (step e running done)) =
        handle-IsReady e _ _ (Reachable-IsReady l args info _ ran before) done
