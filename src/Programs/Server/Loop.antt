-- ===== src/Programs/Server/Loop.antt =====
-- What holds in the server between two events.
use pfstrase.Prelude.{
  String, Bool, true, ◌≡◌, refl, sym, ap, ◌∙◌, Option, none, some, List, >>=-eq-some, some_inj,
  Bool-cases, inl, inr, lookup, arith,
}
use pfstrase.Json.{JsonC}
use pfstrase.Json.Objects.{object_get_ex-new_object}
use pfstrase.Stats.Host.Entries.{field_in}
use pfstrase.Shm.Sound.{IsSound, sock_rpc-IsSound, set_shm_map-IsSound}
use pfstrase.Rpc.Listen.{Calls, accept}
use pfstrase.Conf.{Program, map_server, map_server_psql, sql_client, collector}
use pfstrase.Programs.{Arguments}
use pfstrase.Programs.Server.Cases.{handle-shm_timer_cb, handle-pq_timer_cb, handle-signal_cb_hup}
use pfstrase.Programs.Server.{
  Event, sock_rpc_cb, shm_timer_cb, pq_timer_cb, signal_cb_int, signal_cb_hup, Server, map_init,
  connect_database, connected, started, start_server, handle, step, Reachable, start, next,
}

module _ (J : JsonC) (print_f : J.Double → String) where
  open J use {Json}

  -- The timers run with the intervals of the settings, and the maps are sound.
  pub record IsInStep (s : Server J print_f) : Type 0 where
    pub shm : s.timers.shm_repeat ≡ s.arguments.settings.shm_interval
    pub pq : s.timers.pq_active ≡ true → s.timers.pq_repeat ≡ s.arguments.settings.db_interval
    pub maps : IsSound J s.maps

  map_init-IsSound : IsSound J (map_init J print_f)
  unfolding lookup
  map_init-IsSound = record {
    nodes = λ nid h e. ground (arith, e);
    hosts = rw J.entries-new_object tt;
    reports = λ h otime kept.
        let unknown = object_get_ex-new_object J h in
        let never : none ≡ some otime = sym (ap (λ o. field_in J none o "otime") unknown) ∙ kept in
        absurd (cc never);
  }

  started-IsInStep :
      (program : Program) (calls : Calls) (args : Arguments)
      → IsInStep (started J print_f program calls args)
  started-IsInStep map_server calls args = record {
    shm = refl;
    pq = λ on. ground (arith, on);
    maps = map_init-IsSound;
  }
  started-IsInStep map_server_psql calls args = record {
    shm = refl;
    pq = λ on. refl;
    maps = map_init-IsSound;
  }
  started-IsInStep sql_client calls args = record {
    shm = refl;
    pq = λ on. ground (arith, on);
    maps = map_init-IsSound;
  }
  started-IsInStep collector calls args = record {
    shm = refl;
    pq = λ on. ground (arith, on);
    maps = map_init-IsSound;
  }

  pub start_server-started :
      (connects : String → Bool) (program : Program) (calls : Calls) (args : Arguments)
      (s : Server J print_f)
      → start_server J print_f connects program calls args ≡ some s
      → started J print_f program calls args ≡ s
  unfolding start_server
  start_server-started connects map_server_psql calls args s done =
      let (ok, connection, same) =
        >>=-eq-some (connect_database J print_f connects args.settings)
          (λ ok. connected J print_f connects map_server_psql calls args ok) done in
      elim (Bool-cases ok) [
        | inl e ↦
            let ran : some (started J print_f map_server_psql calls args) ≡ some s =
              ap (connected J print_f connects map_server_psql calls args) (sym e) ∙ same in
            some_inj ran
        | inr e ↦
            let never : none ≡ some s =
              ap (connected J print_f connects map_server_psql calls args) (sym e) ∙ same in
            cc
      ]
  start_server-started connects map_server calls args s done = some_inj done
  start_server-started connects sql_client calls args s done = some_inj done
  start_server-started connects collector calls args s done = some_inj done

  module _ (scan_double : String → Option String) (open_file : String → Option (List String)) where
    handle-IsInStep :
        (program : Program) (e : Event) (s t : Server J print_f)
        → IsInStep s
        → handle J print_f scan_double open_file program e s ≡ some t
        → IsInStep t
    unfolding handle
    handle-IsInStep program (sock_rpc_cb arriving) s t h done = rw (← some_inj done) (record {
      shm = h.shm;
      pq = h.pq;
      maps = sock_rpc-IsSound J s.maps (accept s.socket arriving) h.maps;
    })
    handle-IsInStep program shm_timer_cb s t h done =
        let ((maps, memory), written, same) =
          handle-shm_timer_cb J print_f scan_double open_file program s t done in
        rw (← same) (record {
          shm = h.shm;
          pq = h.pq;
          maps = set_shm_map-IsSound J s.maps maps s.memory memory h.maps written;
        })
    handle-IsInStep program pq_timer_cb s t h done =
        let (inserted, same) =
          handle-pq_timer_cb J print_f scan_double open_file program s t done in
        rw (← same) (record {
          shm = h.shm;
          pq = h.pq;
          maps = record { nodes = h.maps.nodes; hosts = h.maps.hosts; reports = h.maps.reports };
        })
    handle-IsInStep program signal_cb_int s t h done =
        rw (← some_inj done) (record { shm = h.shm; pq = h.pq; maps = h.maps })
    handle-IsInStep program signal_cb_hup s t h done =
        let (settings, same) =
          handle-signal_cb_hup J print_f scan_double open_file program s t done in
        rw (← same) (record { shm = refl; pq = λ on. refl; maps = h.maps })

    -- After any sequence of events, whatever arrives and whatever the configuration file then
    -- says, the timers that run have the intervals of the settings, every node id stands for a
    -- host that has an entry, no two hosts share a name, and a host that keeps the time of a
    -- report keeps its data.
    pub Reachable-IsInStep :
        (connects : String → Bool) (program : Program) (calls : Calls) (args : Arguments)
        (first s : Server J print_f)
        → start_server J print_f connects program calls args ≡ some first
        → Reachable J print_f scan_double open_file program first s
        → IsInStep s
    Reachable-IsInStep connects program calls args first _ ran start =
        rw (← start_server-started connects program calls args first ran)
          (started-IsInStep program calls args)
    Reachable-IsInStep connects program calls args first _ ran
          (next before (step e running awaited done)) =
        handle-IsInStep program e _ _
          (Reachable-IsInStep connects program calls args first _ ran before) done
