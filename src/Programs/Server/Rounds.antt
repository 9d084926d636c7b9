-- ===== src/Programs/Server/Rounds.antt =====
-- What the server's timer does, in any state that the server gets into.
use pfstrase.Prelude.{String, Bool, ◌≡◌, refl, sym, ap, ◌∙◌, Option, some, List, ◌>>=◌, some_inj}
use mathlib.Core.Path.{subst}
use pfstrase.Json.{JsonC}
use pfstrase.Stats.Host.{Maps}
use pfstrase.Stats.Tag.{tag_host}
use pfstrase.Stats.Tag.Hosts.{object_get_ex-tag_host}
use pfstrase.Stats.Tag.Data.{Tagged, data-tag_host}
use pfstrase.Stats.Group.Each.{newer, groups_after, published_of}
use pfstrase.Stats.Group.Updates.{Round, group_host-Round}
use pfstrase.Shm.{set_shm_map}
use pfstrase.Shm.Closed.{set_shm_map-Extends}
use pfstrase.Shm.Rounds.{server_tags, set_shm_map-hosts}
use pfstrase.Shm.Sound.{IsSound, KeepsBoth-host, tag_host-KeepsBoth, round_of}
use pfstrase.Conf.{Program}
use pfstrase.Rpc.Listen.{Calls}
use pfstrase.Programs.{Arguments}
use pfstrase.Programs.Server.Cases.{handle-shm_timer_cb}
use pfstrase.Programs.Server.{Server, shm_timer_cb, handle, start_server, Reachable}
use pfstrase.Programs.Server.Loop.{Reachable-IsInStep}

module _ (J : JsonC) where
  open J use {Json, object_get_ex, new_string, items}

  -- A round of a host that has a report: its data are tagged, and the grouping keeps, ignores or
  -- publishes the report, by the time of the one that it has kept.
  pub record HostRound (m m' : Maps J) (h : String) (entry ntime array : Json) : Type 0 where
    pub tagged : Json
    pub nda : Json
    pub updated : Json
    pub groups : Option Json
    pub data_there : object_get_ex tagged "data" ≡ some nda
    pub data_tagged : Tagged J m (new_string h) (items array) (items nda)
    pub entry_there : object_get_ex m'.host_map h ≡ some updated
    pub round : Round J (object_get_ex entry "otime") tagged ntime nda updated groups
    pub published :
        object_get_ex m'.server_tag_rate_map h
        ≡ newer J (server_tags J) groups (object_get_ex m.server_tag_rate_map h)

  set_shm_map-HostRound :
      (m m' : Maps J) (memory written h : String) (entry ntime array after : Json)
      → IsSound J m
      → set_shm_map J m memory ≡ some (m', written)
      → object_get_ex m.host_map h ≡ some entry
      → object_get_ex entry "time" ≡ some ntime
      → object_get_ex entry "data" ≡ some array
      → object_get_ex m'.host_map h ≡ some after
      → HostRound m m' h entry ntime array
  set_shm_map-HostRound m m' memory written h entry ntime array after sound done there time report
        known =
      let (host, groups) = set_shm_map-hosts J m m' memory written sound.hosts done h in
      let (e, tagged, outcome, there', ran, grouped, same) =
        round_of J m h after (sym host ∙ known) in
      let own : e ≡ entry = some_inj (sym there' ∙ there) in
      let ran' : tag_host J m h entry ≡ some tagged = ap (tag_host J m h) (sym own) ∙ ran in
      let (nda, data_there, all) = data-tag_host J m h entry array tagged report ran' in
      let kept = object_get_ex-tag_host J m h entry tagged ran' in
      let both =
        tag_host-KeepsBoth J m h entry tagged ran'
          (KeepsBoth-host J m h entry sound.reports there) in
      let old = object_get_ex m.server_tag_rate_map h in
      let result =
        group_host-Round J (server_tags J) tagged ntime nda outcome.0 outcome.1
          (kept "time" refl ∙ time) data_there both grouped in
      record {
        tagged = tagged;
        nda = nda;
        updated = outcome.0;
        groups = outcome.1;
        data_there = data_there;
        data_tagged = all;
        entry_there = known ∙ ap some (sym same);
        round =
            subst (λ o. Round J o tagged ntime nda outcome.0 outcome.1) (kept "otime" refl) result;
        published =
            groups
            ∙ ap (λ o. groups_after J (server_tags J) o old)
                (ap (λ o. o >>= λ x. tag_host J m h x) there ∙ ran')
            ∙ ap (λ o. published_of J (server_tags J) o old) grouped;
      }

module _ (J : JsonC) (print_f : J.Double → String) (scan_double : String → Option String)
    (open_file : String → Option (List String)) where
  open J use {Json, object_get_ex}

  pub shm_timer_cb-HostRound :
      (connects : String → Bool) (program : Program) (calls : Calls) (args : Arguments)
      (first s t : Server J print_f) (h : String) (entry ntime array : Json)
      → start_server J print_f connects program calls args ≡ some first
      → Reachable J print_f scan_double open_file program first s
      → handle J print_f scan_double open_file program shm_timer_cb s ≡ some t
      → object_get_ex s.maps.host_map h ≡ some entry
      → object_get_ex entry "time" ≡ some ntime
      → object_get_ex entry "data" ≡ some array
      → HostRound J s.maps t.maps h entry ntime array
  shm_timer_cb-HostRound connects program calls args first s t h entry ntime array ran r done there
        time report =
      let in_step =
        Reachable-IsInStep J print_f scan_double open_file connects program calls args first s ran
          r in
      let ((maps, memory), written, same) =
        handle-shm_timer_cb J print_f scan_double open_file program s t done in
      let after : maps ≡ t.maps = ap (λ u. u.maps) same in
      let (e, known) =
        (set_shm_map-Extends J s.maps s.memory maps memory written).known h (entry, there) in
      subst (λ m. HostRound J s.maps m h entry ntime array) after
        (set_shm_map-HostRound J s.maps maps s.memory memory h entry ntime array e in_step.maps
          written there time report known)
