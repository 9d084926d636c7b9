-- ===== src/Screen/Session.antt =====
-- server/screen.c, main and in_admin_group: whose rows a session of pfstop shows.
pub mod Privacy
use pfstrase.Prelude.{
  ℕ, String, Bool, true, false, ◌||◌, Option, none, some, List, [], ◌∷◌, eqb, if◌then◌else◌,
}
use pfstrase.Stats.View.{Filters}

-- The loop over the groups that getgrouplist returns for the user.
unfoldable pub in_admin_group : List ℕ → Bool
in_admin_group [] = false
in_admin_group (group ∷ rest) =
    if eqb group 815499 || eqb group 0 then true else in_admin_group rest

-- What getopt_long returns: an option with its argument, or `h` and an unknown one.
pub data Argument : Type 0 where
  interval user client server job : String → Argument
  help unknown : Argument

-- The interval is kept as the text that atof reads.
pub record Options : Type 0 where
  pub refresh_interval : String
  pub filter_user : Option String
  pub filter_client : Option String
  pub filter_server : Option String
  pub filter_job : Option String

-- The program goes on with its options, or exits with a code.
pub data Start : Type 0 where
  run : Options → Start
  exit : ℕ → Start

unfoldable pub parse_options : Options → List Argument → Start
parse_options o [] = run o
parse_options o (interval a ∷ rest) = parse_options (record o { refresh_interval = a }) rest
parse_options o (user a ∷ rest) = parse_options (record o { filter_user = some a }) rest
parse_options o (client a ∷ rest) = parse_options (record o { filter_client = some a }) rest
parse_options o (server a ∷ rest) = parse_options (record o { filter_server = some a }) rest
parse_options o (job a ∷ rest) = parse_options (record o { filter_job = some a }) rest
parse_options o (help ∷ rest) = exit 0
parse_options o (unknown ∷ rest) = exit 1

abbrev pub default_options : Options
default_options = record {
  refresh_interval = "3";
  filter_user = none;
  filter_client = none;
  filter_server = none;
  filter_job = none;
}

-- `Set uid filter if not in admin group`
abbrev restrict : String → List ℕ → Start → Start
restrict pw_name groups (exit code) = exit code
restrict pw_name groups (run o) =
    if in_admin_group groups then run o else run (record o { filter_user = some pw_name })

unfoldable pub session : String → List ℕ → List Argument → Start
session pw_name groups args = restrict pw_name groups (parse_options default_options args)

-- The filters that group_ratesbytags reads; it reads no filter_client.
abbrev pub filters : Options → Filters
filters o = record { user = o.filter_user; job = o.filter_job; server = o.filter_server }
