-- ===== src/Programs/Server/Viewers.antt =====
-- From the server to the screen: what pfstop draws of what the server wrote.
use pfstrase.Prelude.{ℕ, String, true, ◌≡◌, sym, ap, ◌∙◌, Option, some, List, if◌then◌else◌}
use pfstrase.Json.{JsonC}
use pfstrase.Stats.View.{Filters, View, group_ratesbytags}
use pfstrase.Shm.{set_shm_map, get_shm_map}
use pfstrase.Shm.Exchange.{StopsAtEnd, get_shm_map-set_shm_map}
use pfstrase.Conf.{Program}
use pfstrase.Screen.Keys.{grouped_by}
use pfstrase.Screen.Table.{da_refresh}
use pfstrase.Screen.Refresh.{Viewer, Frame, Reachable, refresh_timer_cb, da_len}
use pfstrase.Screen.Refresh.Settled.{Reachable-IsSettled}
use pfstrase.Screen.Refresh.Shown.{Shows, At, refresh_timer_cb-rows}
use pfstrase.Screen.Scroll.Bounds.{page}
use pfstrase.Prelude.Int.{pos_part}
use Prim.Native.Nat.{min}
use pfstrase.Prelude.{false, All, length, ◌<◌, ◌≤◌, ◌^◌}
use pfstrase.Screen.Refresh.Cases.{refresh_timer_cb_cases}
use pfstrase.Programs.Server.Cases.{handle-shm_timer_cb}
use pfstrase.Programs.Server.{Server, shm_timer_cb, handle}

module _ (J : JsonC) (print_f print_14_2f : J.Double → String)
    (scan_double : String → Option String) (open_file : String → Option (List String)) where
  -- A viewer that reads its data groups the server's map by its choice.
  view-refresh_timer_cb :
      (program : Program) (s t : Server J print_f) (f : Filters) (now : ℕ)
      (v v' : Viewer J print_14_2f) (frame : Frame J print_14_2f)
      → StopsAtEnd J t.maps.server_tag_rate_map
      → handle J print_f scan_double open_file program shm_timer_cb s ≡ some t
      → v.screen.da_refresh_flag ≡ true
      → refresh_timer_cb J print_14_2f f now t.memory v ≡ some (v', frame)
      → (group_ratesbytags J
            (grouped_by v.screen.groupby)
            f
            (record v.view { server_tag_rate_map = t.maps.server_tag_rate_map })
          ≡ some v'.view)
        × (v'.table ≡ da_refresh J v.screen.detailed v.screen.sortbykey v'.view.screen_map)
  view-refresh_timer_cb program s t f now v v' frame stops wrote reads drawn =
      let ((maps, memory), written, same) =
        handle-shm_timer_cb J print_f scan_double open_file program s t wrote in
      let (view, grouped, r) =
        refresh_timer_cb_cases J print_14_2f f now t.memory v v' frame drawn in
      let wrote_both : set_shm_map J s.maps s.memory ≡ some (t.maps, t.memory) =
        written ∙ ap (λ u. some (u.maps, u.memory)) same in
      let read =
        get_shm_map-set_shm_map J s.maps t.maps s.memory t.memory v.view.server_tag_rate_map stops
          wrote_both in
      let names = grouped_by v.screen.groupby in
      let of_memory : View J = record v.view {
        server_tag_rate_map = get_shm_map J v.view.server_tag_rate_map t.memory;
      } in
      (
        sym (ap (λ m. group_ratesbytags J names f (record v.view { server_tag_rate_map = m })) read)
            ∙ sym (ap (λ b. group_ratesbytags J names f (if b then of_memory else v.view)) reads)
            ∙ grouped
            ∙ ap some (sym r.view_after),
        r.table
            ∙ ap
                (λ b.
                  if b
                  then da_refresh J v.screen.detailed v.screen.sortbykey view.screen_map
                  else v.table)
                reads
            ∙ ap (λ w. da_refresh J v.screen.detailed v.screen.sortbykey w.screen_map)
                (sym r.view_after),
      )

  -- Once the server's timer has written the shared memory, the next refresh of a viewer with no
  -- refresh pending, after whatever events it has had, groups the server's map by its choice, makes
  -- the table of that, and shows a full page of it, or the whole table where it is shorter: each
  -- row with its own text on its own line, from the first row of the window on. The library reads
  -- the printed map back whatever is behind it; the table and the screen have fewer than 2 ^ 31 rows,
  -- and the screen at least 2.
  pub shm_timer_cb-refresh_timer_cb :
      (program : Program) (s t : Server J print_f) (f : Filters) (now : ℕ)
      (v v' : Viewer J print_14_2f) (frame : Frame J print_14_2f)
      → StopsAtEnd J t.maps.server_tag_rate_map
      → handle J print_f scan_double open_file program shm_timer_cb s ≡ some t
      → Reachable J print_14_2f f v
      → v.screen.refresh_pending ≡ false
      → 2 ≤ v.lines
      → v.lines < 2 ^ 31
      → da_len J print_14_2f v'.table < 2 ^ 31
      → refresh_timer_cb J print_14_2f f now t.memory v ≡ some (v', frame)
      → (group_ratesbytags J
            (grouped_by v.screen.groupby)
            f
            (record v.view { server_tag_rate_map = t.maps.server_tag_rate_map })
          ≡ some v'.view)
        × (v'.table ≡ da_refresh J v.screen.detailed v.screen.sortbykey v'.view.screen_map)
        × (length frame.rows ≡ min (da_len J print_14_2f v'.table) (page v.lines))
        × All
            (Shows J print_14_2f v'.group_tags v'.table
              (At J print_14_2f (pos_part v'.screen.scroll_start) v.lines))
            frame.rows
  shm_timer_cb-refresh_timer_cb program s t f now v v' frame stops wrote reached settled two few
        fits drawn =
      let reads = (Reachable-IsSettled J print_14_2f f v reached).reads settled in
      let (view, table) =
        view-refresh_timer_cb program s t f now v v' frame stops wrote reads drawn in
      let (count, show) =
        refresh_timer_cb-rows J print_14_2f f now t.memory v v' frame two few fits drawn in
      (view, table, count, show)
