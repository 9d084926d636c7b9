-- ===== src/Conf/LastWins.antt =====
-- A setting that a file names more than once: the last line counts, for all programs.
use pfstrase.Prelude.{
  String, true, false, ◌≡◌, refl, Option, none, some, List, [], ◌∷◌, ◌==◌, ◌>>=◌, >>=-eq-some,
  some_inj, or_else, eq_iff, arith, Bool-cases, inl, inr, if◌then◌else◌, ◌≢◌, ◌∙◌, ap, sym,
}
use pfstrase.Conf.{
  strsep, is_delimiter, chop, Settings, Program, map_server, map_server_psql, sql_client, collector,
  Setting, setting_of, database_key, apply_setting, apply_line, read_line, read_lines,
}

-- The port that a line sets, by its key and the text behind it.
abbrev port_behind : String × Option String → Option String
port_behind (key, none) = none
port_behind (key, some line) = if key == "port" then chop line else none

abbrev pub port_in : String → Option String
port_in line = port_behind (strsep is_delimiter line)

-- The port of the last line that sets one.
abbrev pub last_port : List String → Option String
last_port [] = none
last_port (line ∷ rest) = or_else (last_port rest) (port_in line)

abbrev pub get_or_keep : String → Option String → String
get_or_keep old none = old
get_or_keep old (some new) = new

port_key :
    (program : Program) (key : String)
    → (key == "port") ≡ true
    → setting_of program key ≡ Setting.port
unfolding setting_of
port_key map_server key e = ground arith
port_key map_server_psql key e = ground arith
port_key sql_client key e = ground arith
port_key collector key e =
    ground (arith, eq_iff key "port", eq_iff key "server", eq_iff "port" "server")

other_key :
    (program : Program) (key : String)
    → (key == "port") ≡ false
    → setting_of program key ≢ Setting.port
unfolding setting_of database_key
other_key map_server key e = ground arith
other_key map_server_psql key e = ground arith
other_key sql_client key e = ground arith
other_key collector key e = ground arith

module _ (scan_double : String → Option String) where
  apply_setting-port :
      (line : String) (s t : Settings)
      → apply_setting scan_double Setting.port line s ≡ some t
      → chop line ≡ some t.port
  unfolding apply_setting
  apply_setting-port line s t done =
      let (v, cut, last) = >>=-eq-some (chop line) (λ v. some (record s { port = v })) done in
      rw (cut, ← some_inj last)

  keeps :
      (cut : Option String) (write : String → Settings) (s t : Settings)
      → ((v : String) → (write v).port ≡ s.port)
      → (cut >>= λ v. some (write v)) ≡ some t
      → t.port ≡ s.port
  keeps none write s t same done = cc
  keeps (some v) write s t same done = rw (← some_inj done) (same v)

  apply_setting-keeps :
      (k : Setting) (line : String) (s t : Settings)
      → k ≢ Setting.port
      → apply_setting scan_double k line s ≡ some t
      → t.port ≡ s.port
  unfolding apply_setting
  apply_setting-keeps Setting.server line s t other done =
      keeps (chop line) (λ v. record s { server = some v }) s t (λ v. refl) done
  apply_setting-keeps Setting.dbserver line s t other done =
      keeps (chop line) (λ v. record s { dbserver = some v }) s t (λ v. refl) done
  apply_setting-keeps Setting.dbname line s t other done =
      keeps (chop line) (λ v. record s { dbname = some v }) s t (λ v. refl) done
  apply_setting-keeps Setting.dbuser line s t other done =
      keeps (chop line) (λ v. record s { dbuser = some v }) s t (λ v. refl) done
  apply_setting-keeps Setting.port line s t other done = absurd (other refl)
  apply_setting-keeps _ line s t other done = sym (ap (λ x. x.port) (some_inj done))

  apply_line-port :
      (program : Program) (p : String × Option String) (s t : Settings)
      → apply_line scan_double program p s ≡ some t
      → t.port ≡ get_or_keep s.port (port_behind p)
  apply_line-port program (key, none) s t done = sym (ap (λ x. x.port) (some_inj done))
  apply_line-port program (key, some line) s t done = elim (Bool-cases (key == "port")) [
    | inl e ↦
        let cut = apply_setting-port line s t (rw (port_key program key e) at done) in rw (e, cut)
    | inr e ↦
        rw e (apply_setting-keeps (setting_of program key) line s t (other_key program key e) done)
  ]

  keep-or_else :
      (old : String) (last here : Option String)
      → get_or_keep (get_or_keep old here) last ≡ get_or_keep old (or_else last here)
  keep-or_else old none here = refl
  keep-or_else old (some v) here = refl

  -- Whichever of the programs reads a file to its end, the port that it then uses is that of the
  -- last line that names one, or the one from before where no line does.
  pub port-read_lines :
      (program : Program) (lines : List String) (s t : Settings)
      → read_lines scan_double program lines s ≡ some t
      → t.port ≡ get_or_keep s.port (last_port lines)
  unfolding read_lines read_line
  port-read_lines program [] s t done = sym (ap (λ x. x.port) (some_inj done))
  port-read_lines program (line ∷ rest) s t done =
      let (next, read, more) =
        >>=-eq-some (read_line scan_double program line s)
          (λ next. read_lines scan_double program rest next) done in
      port-read_lines program rest next t more
      ∙ rw (apply_line-port program (strsep is_delimiter line) s next read)
          (keep-or_else s.port (last_port rest) (port_in line))
