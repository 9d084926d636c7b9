-- ===== src/Programs/Server/Cases.antt =====
-- The handlers of the server that read something first: what a handler that ran has read.
use pfstrase.Prelude.{
  String, ◌≡◌, sym, ap, ◌∙◌, Option, none, some, List, >>=-eq-some, some_inj, if◌then◌else◌,
  Bool-cases, inl, inr,
}
use pfstrase.Json.{JsonC}
use pfstrase.Stats.Host.{Maps}
use pfstrase.Stats.View.{View}
use pfstrase.Shm.{set_shm_map}
use pfstrase.Conf.{Program, Settings}
use pfstrase.Database.{pq_insert}
use pfstrase.Programs.{read_settings}
use pfstrase.Programs.Server.{
  shm_timer_cb, pq_timer_cb, signal_cb_hup, Server, insert_rows_of, rearm, handle, no_filters,
  after_insert,
}

module _ (J : JsonC) (print_f : J.Double → String) where
  insert_rows_of-after_insert :
      (s t : Server J print_f)
      → insert_rows_of J print_f s ≡ some t
      → (inserted : View J × List String) × (after_insert J print_f s inserted ≡ t)
  insert_rows_of-after_insert s t done =
      let (inserted, ran, same) =
        >>=-eq-some {B = Server J print_f}
          (pq_insert J print_f no_filters
            (record { server_tag_rate_map = s.maps.server_tag_rate_map; screen_map = s.screen_map })
            s.memory)
          (λ inserted. some (after_insert J print_f s inserted)) done in
      (inserted, some_inj same)

  module _ (scan_double : String → Option String) (open_file : String → Option (List String))
      (program : Program) (s t : Server J print_f) where
    pub handle-pq_timer_cb :
        handle J print_f scan_double open_file program pq_timer_cb s ≡ some t
        → (inserted : View J × List String) × (after_insert J print_f s inserted ≡ t)
    unfolding handle
    handle-pq_timer_cb done = elim (Bool-cases s.timers.pq_initialised) [
      | inl ready ↦
          insert_rows_of-after_insert s t
            (sym (ap (λ b. if b then insert_rows_of J print_f s else none) ready) ∙ done)
      | inr unset ↦
          let never : none ≡ some t =
            sym (ap (λ b. if b then insert_rows_of J print_f s else none) unset) ∙ done in
          cc
    ]

    pub handle-shm_timer_cb :
        handle J print_f scan_double open_file program shm_timer_cb s ≡ some t
        → (shared : Maps J × String) × (set_shm_map J s.maps s.memory ≡ some shared)
          × (record s { maps = shared.0; memory = shared.1 } ≡ t)
    unfolding handle
    handle-shm_timer_cb done =
        let (shared, written, same) =
          >>=-eq-some {B = Server J print_f} (set_shm_map J s.maps s.memory)
            (λ p. some (record s { maps = p.0; memory = p.1 })) done in
        (shared, written, some_inj same)

    pub handle-signal_cb_hup :
        handle J print_f scan_double open_file program signal_cb_hup s ≡ some t
        → (settings : Settings) × (record s {
          arguments = record s.arguments { settings = settings };
          timers = rearm J print_f settings s.timers;
        }
            ≡ t)
    unfolding handle
    handle-signal_cb_hup done =
        let (settings, read, same) =
          >>=-eq-some {B = Server J print_f}
            (read_settings scan_double open_file program s.arguments)
            (λ settings. some (record s {
              arguments = record s.arguments { settings = settings };
              timers = rearm J print_f settings s.timers;
            }))
            done in
        (settings, some_inj same)
