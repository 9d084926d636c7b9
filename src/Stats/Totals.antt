-- ===== src/Stats/Totals.antt =====
-- server/stats.c, add_stats and derived_events: events summed for each tag.
pub mod Sums
pub mod Derived
use pfstrase.Prelude.{
  String, Bool, true, false, ◌||◌, Option, none, some, List, [], ◌∷◌, ◌==◌, ℕ, ◌+◌, pos, strstr,
  eqb, if◌then◌else◌,
}
use pfstrase.Json.{JsonC}
use pfstrase.Json.Objects.{foreach_add}

-- What the inner loop of derived_events does with an event.
pub data EventKind : Type 0 where
  skipped byte_count cpu_load request : EventKind

unfoldable pub kind : String → EventKind
kind event =
    if strstr event "[usec"
      || event == "read_bytes"
      || event == "write_bytes"
      || event == "nclients"
      || event == "bytes"
      || event == "iops"
    then skipped
    else if strstr event "[bytes"
    then byte_count
    else if event == "load"
    then cpu_load
    else request

module _ (J : JsonC) where
  open J use {
    Double, of_ℤ, add, mul, div, lt, Json, object_add, object_get_ex, entries, get_double,
    new_double,
  }

  -- An event that is there already is summed up; the load is replaced.
  abbrev pub accumulate : String → Json → Option Json → Json
  accumulate event new none = new
  accumulate event new (some pre) =
      if event == "load" then new else new_double (add (get_double new) (get_double pre))

  unfoldable pub add_stats : Json → String → Json → Json
  add_stats tag_map tags stats = elim (object_get_ex tag_map tags) [
    | some pre_stats ↦ object_add tag_map tags (foreach_add J accumulate pre_stats (entries stats))
    | none ↦ object_add tag_map tags stats
  ]

  abbrev pub zero_double : Double
  zero_double = of_ℤ (pos 0)

  -- `const double cf = 1.0/(1024*1024)`
  abbrev pub cf : Double
  cf = div (of_ℤ (pos 1)) (of_ℤ (pos 1048576))

  -- `0.01`
  abbrev pub percent : Double
  percent = div (of_ℤ (pos 1)) (of_ℤ (pos 100))

  -- The variables of the inner loop, and the entry that it writes.
  pub record Running : Type 0 where
    pub entry : Json
    pub cpu : Double
    pub sum_reqs : Double
    pub sum_bytes : Double

  unfoldable pub sum_event : EventKind → Running → String → Json → Running
  sum_event skipped s event value = s
  sum_event byte_count s event value = record s {
    sum_bytes = add s.sum_bytes (get_double value);
    entry = object_add s.entry event (new_double (mul (get_double value) cf));
  }
  sum_event cpu_load s event value = record s { cpu = get_double value }
  sum_event request s event value = record s { sum_reqs = add s.sum_reqs (get_double value) }

  unfoldable pub sum_events : Running → List (String × Json) → Running
  sum_events s [] = s
  sum_events s ((event, value) ∷ rest) = sum_events (sum_event (kind event) s event value) rest

  abbrev pub start : Json → Running
  start tag_entry = record {
    entry = tag_entry;
    cpu = zero_double;
    sum_reqs = zero_double;
    sum_bytes = zero_double;
  }

  unfoldable pub derive_entry : Running → Json
  derive_entry s =
      object_add
        (object_add (object_add s.entry "load" (new_double (mul s.cpu percent))) "iops"
          (new_double s.sum_reqs))
        "bytes" (new_double (mul s.sum_bytes cf))

  -- The server's entry, `total_iops` and `total_bytes`.
  pub record Totals : Type 0 where
    pub server_entry : Json
    pub total_iops : Double
    pub total_bytes : Double

  unfoldable pub derive_tag : Totals → String → Json → Totals
  derive_tag t tags tag_entry =
      let s = sum_events (start tag_entry) (entries tag_entry) in
      if tags == "time" then t else record {
        server_entry = object_add t.server_entry tags (derive_entry s);
        total_iops = add t.total_iops s.sum_reqs;
        total_bytes = add t.total_bytes (mul s.sum_bytes cf);
      }

  unfoldable pub derive_tags : Totals → List (String × Json) → Totals
  derive_tags t [] = t
  derive_tags t ((tags, tag_entry) ∷ rest) = derive_tags (derive_tag t tags tag_entry) rest

  -- One share of the effective load: `l_factor` and `norm` after one of the two tests.
  unfoldable pub add_share : Json → String → Double → Double × ℕ → Double × ℕ
  add_share entry event total (l_factor, norm) =
      if lt zero_double total
      then elim (object_get_ex entry event) [
        | none ↦ (l_factor, norm)
        | some v ↦ (add l_factor (mul (get_double v) (div (of_ℤ (pos 1)) total)), norm + 1)
      ]
      else (l_factor, norm)

  unfoldable pub effective_load : Totals → Json → Json
  effective_load t entry = elim (object_get_ex entry "load") [
    | none ↦ entry
    | some l ↦
        let (l_factor, norm) =
          add_share entry "bytes" t.total_bytes
            (add_share entry "iops" t.total_iops (zero_double, 0)) in
        if eqb norm 0
        then entry
        else object_add entry "load_eff"
            (new_double (div (mul (get_double l) l_factor) (of_ℤ (pos norm))))
  ]

  unfoldable pub effective_loads : Totals → Json → List (String × Json) → Json
  effective_loads t server_entry [] = server_entry
  effective_loads t server_entry ((retags, retag_entry) ∷ rest) =
      effective_loads t (object_add server_entry retags (effective_load t retag_entry)) rest

  unfoldable pub derived_events : Json → Json
  derived_events server_entry =
      let t =
        derive_tags
          (record {
            server_entry = server_entry;
            total_iops = zero_double;
            total_bytes = zero_double;
          })
          (entries server_entry) in
      effective_loads t t.server_entry (entries t.server_entry)
