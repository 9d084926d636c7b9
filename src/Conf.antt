-- ===== src/Conf.antt =====
-- read_conf_file of server/pfstrase_server.c, server/pfsql.c and client/pfstrase_client.c.
-- `none` stands for the write before the line's first byte.
pub mod Terminated
pub mod LastWins
use Prim.Native.Char.{Char, code}
use Prim.Native.String.{◌++◌ as append}
use pfstrase.Prelude.{
  ℕ, ◌-◌, String, Bool, true, false, ◌||◌, Option, none, some, List, [], ◌∷◌, ◌==◌, ◌>>=◌, ℤ, pos,
  negsuc, eqb, len, slice, leb, if◌then◌else◌,
}

-- The delimiters " :\t=".
unfoldable pub is_delimiter : Char → Bool
is_delimiter c = eqb (code c) b' ' || eqb (code c) b':' || eqb (code c) b'\t' || eqb (code c) b'='

abbrev cons_key : Char → String × Option String → String × Option String
cons_key c (key, line) = (String.◌∷◌ c key, line)

-- `key = strsep(&line, …)`: the text before the first delimiter, and the line behind it, which
-- is NULL where there is none.
unfoldable pub strsep : (Char → Bool) → String → String × Option String
strsep delimiter String.[] = ("", none)
strsep delimiter (String.◌∷◌ c s) =
    let rest = strsep delimiter s in if delimiter c then ("", some s) else cons_key c rest

-- `line[strlen(line) - 1] = '\0'`
unfoldable pub chop : String → Option String
chop line = if leb 1 (len line) then some (slice line 0 (len line - 1)) else none

-- The settings that the three programs read, each its own part of them. An interval is kept as
-- the text that sscanf reads it from.
pub record Settings : Type 0 where
  pub server : Option String
  pub port : String
  pub dbserver : Option String
  pub dbname : Option String
  pub dbuser : Option String
  pub db_interval : String
  pub shm_interval : String
  pub frequency : String

-- Which of the programs reads the file, the server with or without PSQL.
pub data Program : Type 0 where
  map_server map_server_psql sql_client collector : Program

-- What a key sets in a program.
pub data Setting : Type 0 where
  server port dbserver dbname dbuser db_interval shm_interval frequency ignored : Setting

unfoldable pub database_key : String → Setting
database_key key =
    if key == "dbserver"
    then dbserver
    else if key == "dbname"
    then dbname
    else if key == "dbuser"
    then dbuser
    else if key == "db_interval"
    then db_interval
    else ignored

unfoldable pub setting_of : Program → String → Setting
unfolding database_key
setting_of map_server key =
    if key == "port" then port else if key == "sharedmem_interval" then shm_interval else ignored
setting_of map_server_psql key =
    if key == "port"
    then port
    else if key == "sharedmem_interval"
    then shm_interval
    else database_key key
setting_of sql_client key = if key == "port" then port else database_key key
setting_of collector key =
    if key == "server"
    then server
    else if key == "port"
    then port
    else if key == "frequency"
    then frequency
    else ignored

-- The file: no name was given, it does not open, or its lines. With the return code.
pub data ConfFile : Type 0 where
  no_name : ConfFile
  unreadable : ConfFile
  lines : List String → ConfFile

-- `sscanf(line, "%lf", …) == 1`, by the text that it reads a number from: a parameter.
module _ (scan_double : String → Option String) where
  abbrev keep_or : String → Option String → String
  keep_or old none = old
  keep_or old (some new) = new

  unfoldable pub apply_setting : Setting → String → Settings → Option Settings
  apply_setting server line s = do v ← chop line; some (record s { server = some v })
  apply_setting port line s = do v ← chop line; some (record s { port = v })
  apply_setting dbserver line s = do v ← chop line; some (record s { dbserver = some v })
  apply_setting dbname line s = do v ← chop line; some (record s { dbname = some v })
  apply_setting dbuser line s = do v ← chop line; some (record s { dbuser = some v })
  apply_setting db_interval line s =
      some (record s { db_interval = keep_or s.db_interval (scan_double line) })
  apply_setting shm_interval line s =
      some (record s { shm_interval = keep_or s.shm_interval (scan_double line) })
  apply_setting frequency line s =
      some (record s { frequency = keep_or s.frequency (scan_double line) })
  apply_setting ignored line s = some s

  abbrev pub apply_line : Program → String × Option String → Settings → Option Settings
  apply_line program (key, none) s = some s
  apply_line program (key, some line) s = apply_setting (setting_of program key) line s

  -- The body of the loop over the lines of the file, each with its newline.
  unfoldable pub read_line : Program → String → Settings → Option Settings
  read_line program line s = apply_line program (strsep is_delimiter line) s

  unfoldable pub read_lines : Program → List String → Settings → Option Settings
  read_lines program [] s = some s
  read_lines program (line ∷ rest) s = do
    next ← read_line program line s
    read_lines program rest next

  unfoldable pub read_conf_file : Program → ConfFile → Settings → Option (Settings × ℤ)
  read_conf_file program no_name s = some (s, pos 0)
  read_conf_file program unreadable s = some (s, negsuc 0)
  read_conf_file program (lines l) s = do read ← read_lines program l s; some (read, negsuc 0)
