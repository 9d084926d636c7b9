-- ===== src/Stats/Rates.antt =====
-- server/stats.c, calc_rates: what every export did between two reports of its server.
pub mod Counters
pub mod Matches
pub mod Tags
use pfstrase.Prelude.{
  String, Bool, ◌≡◌, Option, none, some, List, [], ◌∷◌, ◌==◌, ◌>>=◌, pos, snprintf_joined, or_else,
  if◌then◌else◌,
}
use pfstrase.Prelude.Int.{◌-ℤ◌, wrap64}
use pfstrase.Json.{JsonC}
use pfstrase.Json.Objects.{copy_tag, foreach_add}

module _ (J : JsonC) where
  open J use {
    Double, of_ℤ, mul, lt, Json, new_object, object_add, object_get_ex, entries, items, array_add,
    get_string, get_int64, new_double,
  }

  abbrev pub is_cpu : Json → Bool
  is_cpu stats_type = get_string stats_type == "cpu"

  -- The key of a data entry: "cpu", or its client, target and type in `char tag_str[256]`.
  unfoldable pub rate_key : Json → Json → Option String
  rate_key entry stats_type = if is_cpu stats_type then some "cpu" else do
    nid ← object_get_ex entry "client_nid"
    target ← object_get_ex entry "target"
    some (snprintf_joined 256 (get_string nid) (get_string target) (get_string stats_type))

  -- `Get map (client_nid, stats_type) of old values`
  unfoldable pub add_old : Json → Json → Option Json
  add_old omap entry = do
    stats_type ← object_get_ex entry "stats_type"
    stats ← object_get_ex entry "stats"
    key ← rate_key entry stats_type
    some (object_add omap key stats)

  -- `continue` keeps the map as it is.
  abbrev pub kept : Json → Option Json → Json
  kept omap none = omap
  kept omap (some next) = next

  unfoldable pub old_map : Json → List Json → Json
  old_map omap [] = omap
  old_map omap (entry ∷ rest) = old_map (kept omap (add_old omap entry)) rest

  -- `delta`, which is 0 for a counter that is new or was reset
  abbrev pub difference : Json → Option Json → Double
  difference new none = of_ℤ (pos 0)
  difference new (some old) = of_ℤ (wrap64 (get_int64 new -ℤ get_int64 old))

  unfoldable pub delta : Json → Option Json → Double
  delta new old = let d = difference new old in if lt d (of_ℤ (pos 0)) then of_ℤ (pos 0) else d

  -- The inner loop, over the events of one entry.
  unfoldable pub event_rates : Json → Json → Double → Json
  event_rates nstats ostats idt =
      foreach_add J (λ event new _. new_double (mul (delta new (object_get_ex ostats event)) idt))
        new_object (entries nstats)

  -- The tags that a rate takes over from its entry.
  unfoldable pub rate_tags : Json → Json → Json → Json
  rate_tags entry stats_type rate =
      let served = copy_tag J entry "server" "server" rate in
      if is_cpu stats_type
      then served
      else copy_tag J entry "fid" "fid" (
          copy_tag J entry "uid" "uid" (
            copy_tag J entry "jid" "jid" (
              copy_tag J entry "system" "system" (
                copy_tag J entry "client" "client"
                  (copy_tag J entry "client_nid" "client_nid" served)))))

  -- The body of the loop over the new values; `none` for `continue`.
  unfoldable pub rate_of : Json → Double → Json → Option Json
  rate_of omap idt entry = do
    stats_type ← object_get_ex entry "stats_type"
    key ← rate_key entry stats_type
    ostats ← object_get_ex omap key
    nstats ← object_get_ex entry "stats"
    some (
        rate_tags entry stats_type (
          object_add (object_add new_object "stats" (event_rates nstats ostats idt)) "stats_type"
            stats_type))

  abbrev pub array_add_some : Json → Option Json → Json
  array_add_some a none = a
  array_add_some a (some x) = array_add a x

  unfoldable pub new_rates : Json → Double → Json → List Json → Json
  new_rates omap idt rates [] = rates
  new_rates omap idt rates (entry ∷ rest) =
      new_rates omap idt (array_add_some rates (rate_of omap idt entry)) rest

  unfoldable pub calc_rates : Json → Json → Json → Double → Json
  calc_rates rate_array nda oda idt =
      new_rates (old_map new_object (items oda)) idt rate_array (items nda)
