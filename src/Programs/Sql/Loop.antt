-- ===== src/Programs/Sql/Loop.antt =====
-- server/pfsql.c: what holds in the program between two events.
use mathlib.Core.List.{map-append, append-nil, append_assoc}
use pfstrase.Prelude.{
  String, Bool, ◌≡◌, refl, sym, ap, ◌∙◌, Option, none, some, List, [], ◌++◌, map, All, All-append,
  >>=-eq-some, some_inj, ◌>>=◌, ◌∷◌, Bool-cases, inl, inr,
}
use pfstrase.Json.{JsonC}
use pfstrase.Conf.{sql_client}
use pfstrase.Database.{pq_insert}
use pfstrase.Database.Array.{statement, all_records}
use pfstrase.Database.Batches.{Fits, all_records-append}
use pfstrase.Database.Inserts.{pq_insert-records, view_records}
use pfstrase.Programs.{Arguments, read_settings}
use pfstrase.Programs.Server.{no_filters, connect_database}
use pfstrase.Programs.Sql.{
  Event, pq_timer_cb, signal_cb_int, signal_cb_hup, Sql, started_sql, connected_sql, start_sql,
  after_insert, rearmed, handle, step, Reachable, start, next,
}

module _ (J : JsonC) (print_f : J.Double → String) where
  -- The servers of a screen map with their rows.
  abbrev pub Servers : Type 0
  Servers = List (String × J.Json)

  -- The records of one view after the other.
  abbrev pub all_view_records : List Servers → Option (List String)
  all_view_records [] = some []
  all_view_records (servers ∷ rest) = do
    records ← view_records J print_f servers
    others ← all_view_records rest
    some (records ++ others)

  -- Statements of groups that together hold the records of the views, in their order, each group
  -- no longer than the array.
  abbrev pub Statements : List String → Type 0
  Statements executed =
      (views : List Servers) × (groups : List (List String)) × (all_view_records views
        ≡ some (all_records groups))
      × (executed ≡ map statement groups)
      × All Fits groups

  -- The timer runs with the interval of the settings, and what was executed are the statements of
  -- views.
  pub record IsCopying (s : Sql J print_f) : Type 0 where
    pub interval : s.pq_repeat ≡ s.arguments.settings.db_interval
    pub statements : Statements s.executed

  start_sql-started :
      (connects : String → Bool) (args : Arguments) (s : Sql J print_f)
      → start_sql J print_f connects args ≡ some s
      → started_sql J print_f args ≡ s
  unfolding start_sql
  start_sql-started connects args s done =
      let (ok, connection, same) =
        >>=-eq-some (connect_database J print_f connects args.settings)
          (connected_sql J print_f connects args) done in
      elim (Bool-cases ok) [
        | inl e ↦ some_inj (ap (connected_sql J print_f connects args) (sym e) ∙ same)
        | inr e ↦
            let never : none ≡ some s = ap (connected_sql J print_f connects args) (sym e) ∙ same in
            cc
      ]

  all_view_records-snoc :
      (views : List Servers) (servers : Servers) (records added : List String)
      → all_view_records views ≡ some records
      → view_records J print_f servers ≡ some added
      → all_view_records (views ++ servers ∷ []) ≡ some (records ++ added)
  all_view_records-snoc [] servers records added e made =
      rw (made, ← some_inj e) (ap some (append-nil added))
  all_view_records-snoc (first ∷ rest) servers records added e made =
      let (r, here, more) =
        >>=-eq-some (view_records J print_f first)
          (λ r. all_view_records rest >>= λ others. some (r ++ others)) e in
      let (others, there, all) =
        >>=-eq-some (all_view_records rest) (λ others. some (r ++ others)) more in
      rw (here, all_view_records-snoc rest servers others added there made)
        (rw (← some_inj all) (ap some (sym (append_assoc r others added))))

  Statements-append :
      (xs ys : List String) (servers : Servers) (records : List String) (hs : List (List String))
      → Statements xs
      → view_records J print_f servers ≡ some records
      → all_records hs ≡ records
      → ys ≡ map statement hs
      → All Fits hs
      → Statements (xs ++ ys)
  Statements-append xs ys servers records hs (views, gs, made, e, fit) made' all e' fit' = (
    views ++ servers ∷ [],
    gs ++ hs,
    all_view_records-snoc views servers (all_records gs) records made made'
        ∙ ap some (sym (all_records-append gs hs ∙ ap (λ l. all_records gs ++ l) all)),
    rw (e, e', map-append) refl,
    All-append Fits gs hs fit fit',
  )

  module _ (scan_double : String → Option String) (open_file : String → Option (List String)) where
    handle-IsCopying :
        (e : Event) (s t : Sql J print_f)
        → IsCopying s
        → handle J print_f scan_double open_file e s ≡ some t
        → IsCopying t
    unfolding handle
    handle-IsCopying (pq_timer_cb memory) s t h done =
        let ((view, executed), ran, same) =
          >>=-eq-some {B = Sql J print_f} (pq_insert J print_f no_filters s.view memory)
            (λ inserted. some (after_insert J print_f s inserted)) done in
        let (records, groups, made, all, whole, fit) =
          (pq_insert-records J print_f no_filters s.view view memory executed ran).1 in
        rw (← some_inj same) (record {
          interval = h.interval;
          statements =
              Statements-append s.executed executed (J.entries view.screen_map) records groups
                h.statements made all whole fit;
        })
    handle-IsCopying signal_cb_int s t h done =
        rw (← some_inj done) (record { interval = h.interval; statements = h.statements })
    handle-IsCopying signal_cb_hup s t h done =
        let (settings, read, same) =
          >>=-eq-some {B = Sql J print_f}
            (read_settings scan_double open_file sql_client s.arguments)
            (λ settings. some (rearmed J print_f s (record s.arguments { settings = settings })))
            done in
        rw (← some_inj same) (record { interval = refl; statements = h.statements })

    pub Reachable-IsCopying :
        (connects : String → Bool) (args : Arguments) (first s : Sql J print_f)
        → start_sql J print_f connects args ≡ some first
        → Reachable J print_f scan_double open_file first s
        → IsCopying s
    Reachable-IsCopying connects args first _ ran start =
        rw (← start_sql-started connects args first ran)
          (record { interval = refl; statements = ([], [], refl, refl, tt) })
    Reachable-IsCopying connects args first _ ran (next before (step e running done)) =
        handle-IsCopying e _ _ (Reachable-IsCopying connects args first _ ran before) done
