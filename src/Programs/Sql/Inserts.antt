-- ===== src/Programs/Sql/Inserts.antt =====
-- From the server to the database: what pfsql inserts of what the server wrote.
use pfstrase.Prelude.{
  String, ◌≡◌, sym, ap, ◌∙◌, Option, some, List, [], ◌∷◌, ◌++◌, map, All, >>=-eq-some, some_inj,
}
use pfstrase.Json.{JsonC}
use pfstrase.Stats.View.{group_ratesbytags}
use pfstrase.Shm.{set_shm_map}
use pfstrase.Shm.Exchange.{StopsAtEnd, get_shm_map-set_shm_map}
use pfstrase.Conf.{Program}
use pfstrase.Database.{pq_insert}
use pfstrase.Database.Array.{statement, all_records}
use pfstrase.Database.Batches.{Fits}
use pfstrase.Database.Inserts.{view_records, pq_insert-records}
use pfstrase.Programs.Server.{Server, no_filters}
use pfstrase.Programs.Server as Servers
use pfstrase.Programs.Sql.{Sql, pq_timer_cb, after_insert, handle}

module _ (J : JsonC) (print_f : J.Double → String) (scan_double : String → Option String)
    (open_file : String → Option (List String)) where
  open J use {entries}

  -- Once the server's timer has written the shared memory, the next round of pfsql groups the
  -- server's map by system, file system, server, job and user, and adds to what it has executed
  -- the statements with the records of all rows of that view, in their order, none left out and
  -- none twice, in groups that the array has room for but for its zero. The library reads
  -- the printed map back whatever is behind it, and the rows can be written.
  pub shm_timer_cb-pq_timer_cb :
      (program : Program) (server written : Server J print_f) (s t : Sql J print_f)
      → StopsAtEnd J written.maps.server_tag_rate_map
      → Servers.handle J print_f scan_double open_file program Servers.shm_timer_cb server
        ≡ some written
      → handle J print_f scan_double open_file (pq_timer_cb written.memory) s ≡ some t
      → (group_ratesbytags J
            ("system" ∷ "fid" ∷ "server" ∷ "jid" ∷ "uid" ∷ [])
            no_filters
            (record s.view { server_tag_rate_map = written.maps.server_tag_rate_map })
          ≡ some t.view)
        × ((records : List String) × (groups : List (List String)) × (view_records J print_f
                (entries t.view.screen_map)
              ≡ some records)
            × (all_records groups ≡ records)
            × (t.executed ≡ s.executed ++ map statement groups)
            × All Fits groups)
  unfolding handle Servers.handle
  shm_timer_cb-pq_timer_cb program server written s t stops wrote reads =
      let ((maps, memory), ran, same) =
        >>=-eq-some {B = Server J print_f} (set_shm_map J server.maps server.memory)
          (λ p. some (record server { maps = p.0; memory = p.1 })) wrote in
      let ((view, executed), inserted, after) =
        >>=-eq-some {B = Sql J print_f} (pq_insert J print_f no_filters s.view written.memory)
          (λ inserted. some (after_insert J print_f s inserted)) reads in
      let wrote_both : set_shm_map J server.maps server.memory
          ≡ some (written.maps, written.memory) =
        ran ∙ ap (λ u. some (u.maps, u.memory)) (some_inj same) in
      let read =
        get_shm_map-set_shm_map J server.maps written.maps server.memory written.memory
          s.view.server_tag_rate_map stops wrote_both in
      let names = "system" ∷ "fid" ∷ "server" ∷ "jid" ∷ "uid" ∷ [] in
      let (grouped, (records, groups, made, all, whole, fit)) =
        pq_insert-records J print_f no_filters s.view view written.memory executed inserted in
      let seen : view ≡ t.view = ap (λ u. u.view) (some_inj after) in
      let put : s.executed ++ executed ≡ t.executed = ap (λ u. u.executed) (some_inj after) in
      (
        sym (
              ap
                (λ m.
                  group_ratesbytags J names no_filters (record s.view { server_tag_rate_map = m }))
                read)
            ∙ grouped
            ∙ ap some seen,
        (
          records,
          groups,
          ap (λ v. view_records J print_f (entries v.screen_map)) (sym seen) ∙ made,
          all,
          sym put ∙ ap (λ e. s.executed ++ e) whole,
          fit,
        ),
      )
