-- ===== src/Programs/Server/Deaf.antt =====
-- A server whose socket could not be set up, as where its port is in use.
use mathlib.Core.Path.{subst}
use pfstrase.Prelude.{
  ℕ, String, Bool, false, ◌≡◌, refl, ap, ◌&&◌, Option, none, some, List, [], ◌>>=◌, >>=-eq-some,
  some_inj, Bool-cases, inl, inr,
}
use pfstrase.Json.{JsonC}
use pfstrase.Stats.Host.{Maps}
use pfstrase.Stats.Tag.{tag_stats, tag_hosts}
use pfstrase.Stats.Group.{group_statsbytags, group_hosts}
use pfstrase.Shm.{make_buffer, set_shm_map, copy_map}
use pfstrase.Rpc.{Recv, recv_loop, sock_rpc}
use pfstrase.Rpc.Listen.{Calls, socket_listen, created, accept, socket_destroy}
use pfstrase.Conf.{Program}
use pfstrase.Programs.{Arguments}
use pfstrase.Programs.Server.Cases.{handle-shm_timer_cb, handle-pq_timer_cb, handle-signal_cb_hup}
use pfstrase.Programs.Server.{
  Event, sock_rpc_cb, shm_timer_cb, pq_timer_cb, signal_cb_int, signal_cb_hup, Server, start_server,
  handle, step, Reachable, start, next,
}
use pfstrase.Programs.Server.Loop.{start_server-started}

-- There is a socket, but a later call of socket_listen fails.
abbrev pub Fails : Calls → Type 0
Fails calls =
    ((fd : ℕ) × (calls.socket ≡ some fd)) × (calls.setsockopt && calls.bind && calls.listen ≡ false)

created-listens :
    (calls : Calls) (o : Option ℕ)
    → calls.setsockopt && calls.bind && calls.listen ≡ false
    → (created calls o).listens ≡ false
created-listens calls none failed = refl
created-listens calls (some fd) failed = elim (Bool-cases calls.setsockopt) [
  | inr no_option ↦ rw no_option refl
  | inl option ↦ elim (Bool-cases calls.bind) [
    | inr no_bind ↦ rw (option, no_bind) refl
    | inl bind ↦
        let no_listen : calls.listen ≡ false = rw (option, bind) at failed in
        rw (option, bind, no_listen) refl
  ]
]

listens-socket_listen : (calls : Calls) → Fails calls → (socket_listen calls).listens ≡ false
unfolding socket_listen
listens-socket_listen calls (made, failed) = created-listens calls calls.socket failed

module _ (J : JsonC) (print_f : J.Double → String) where
  open J use {Json, entries}

  abbrev NoHosts : Maps J → Type 0
  NoHosts m = (entries m.host_map ≡ []) × (m.nid_map ≡ [])

  record IsDeaf (s : Server J print_f) : Type 0 where
    socket : s.socket.listens ≡ false
    maps : NoHosts s.maps

  sock_rpc-accept_lem :
      (s : Server J print_f) (arriving : List Recv)
      → s.socket.listens ≡ false
      → sock_rpc J s.maps (accept s.socket arriving) ≡ s.maps
  unfolding accept sock_rpc recv_loop
  sock_rpc-accept_lem s arriving deaf = rw deaf refl

  tag_stats-no_hosts : (m : Maps J) → entries m.host_map ≡ [] → tag_stats J m ≡ some m
  unfolding tag_stats tag_hosts
  tag_stats-no_hosts m empty = ap (tag_hosts J m) empty

  group_statsbytags-no_hosts :
      (names : List String) (m : Maps J)
      → entries m.host_map ≡ []
      → group_statsbytags J names m ≡ some m
  unfolding group_statsbytags group_hosts
  group_statsbytags-no_hosts names m empty = ap (group_hosts J _ m) empty

  set_shm_map-no_hosts :
      (m m' : Maps J) (memory written : String)
      → entries m.host_map ≡ []
      → set_shm_map J m memory ≡ some (m', written)
      → m ≡ m'
  unfolding set_shm_map make_buffer
  set_shm_map-no_hosts m m' memory written empty done =
      let text = J.to_json_string m.server_tag_rate_map in
      let copied : (copy_map memory text >>= λ w. some (m, w)) ≡ some (m', written) =
        rw (tag_stats-no_hosts m empty, group_statsbytags-no_hosts _ m empty) at done in
      let (w, ran, same) = >>=-eq-some (copy_map memory text) (λ w. some (m, w)) copied in
      ap (λ p. p.0) (some_inj same)

  module _ (scan_double : String → Option String) (open_file : String → Option (List String)) where
    handle-IsDeaf :
        (program : Program) (e : Event) (s t : Server J print_f)
        → IsDeaf s
        → handle J print_f scan_double open_file program e s ≡ some t
        → IsDeaf t
    unfolding handle socket_destroy
    handle-IsDeaf program (sock_rpc_cb arriving) s t h done =
        rw (← some_inj done)
          (record { socket = h.socket; maps = rw (sock_rpc-accept_lem s arriving h.socket) h.maps })
    handle-IsDeaf program shm_timer_cb s t h done =
        let ((maps, memory), written, same) =
          handle-shm_timer_cb J print_f scan_double open_file program s t done in
        let kept = set_shm_map-no_hosts s.maps maps s.memory memory h.maps.0 written in
        rw (← same) (record { socket = h.socket; maps = subst NoHosts kept h.maps })
    handle-IsDeaf program pq_timer_cb s t h done =
        let (inserted, same) =
          handle-pq_timer_cb J print_f scan_double open_file program s t done in
        rw (← same) (record { socket = h.socket; maps = h.maps })
    handle-IsDeaf program signal_cb_int s t h done =
        rw (← some_inj done) (record { socket = refl; maps = h.maps })
    handle-IsDeaf program signal_cb_hup s t h done =
        let (settings, same) =
          handle-signal_cb_hup J print_f scan_double open_file program s t done in
        rw (← same) (record { socket = h.socket; maps = h.maps })

    Reachable-IsDeaf :
        {program : Program} {first s : Server J print_f}
        → Reachable J print_f scan_double open_file program first s
        → IsDeaf first
        → IsDeaf s
    Reachable-IsDeaf start h = h
    Reachable-IsDeaf {program = program} (next before (step e running awaited done)) h =
        handle-IsDeaf program e _ _ (Reachable-IsDeaf before h) done

    -- Once main has set up a server whose setsockopt(), bind() or listen() has failed, then after any
    -- sequence of events, whatever arrives, the server listens on no socket, and knows of no host
    -- and no node id.
    pub Reachable-no_hosts :
        (connects : String → Bool) (program : Program) (calls : Calls) (args : Arguments)
        (first s : Server J print_f)
        → Fails calls
        → start_server J print_f connects program calls args ≡ some first
        → Reachable J print_f scan_double open_file program first s
        → (s.socket.listens ≡ false) × (entries s.maps.host_map ≡ []) × (s.maps.nid_map ≡ [])
    Reachable-no_hosts connects program calls args first s failed ran r =
        let deaf = Reachable-IsDeaf r (
          rw (← start_server-started J print_f connects program calls args first ran) (record {
            socket = listens-socket_listen calls failed;
            maps = (J.entries-new_object, refl);
          })) in
        (deaf.socket, deaf.maps.0, deaf.maps.1)
