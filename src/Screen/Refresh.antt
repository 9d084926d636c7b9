-- ===== src/Screen/Refresh.antt =====
-- server/screen.c: the events of the viewer. libev calls one handler after the other; an event is what
-- a handler reads from outside.
pub mod Cases
pub mod Settled
pub mod Held
pub mod Shown
use pfstrase.Prelude.{
  ◌≡◌, ℕ, ◌+◌, ◌*◌, ◌/◌, String, Bool, true, false, not, ◌||◌, Option, none, some, List, [], ◌∷◌,
  ◌>>=◌, ℤ, pos, eqb, ltb, length, if◌then◌else◌,
}
use pfstrase.Prelude.Int.{◌+ℤ◌, ltb_ℤ}
use pfstrase.Json.{JsonC}
use pfstrase.Stats.Group.{set_group_tags}
use pfstrase.Stats.View.{Filters, View, group_ratesbytags}
use pfstrase.Shm.{get_shm_map}
use pfstrase.Screen.Keys.{Key, Screen, blank, range, screen_key_cb, screen_refresh, grouped_by}
use pfstrase.Screen.Scroll.{clamp_start, drawn}
use pfstrase.Screen.Table.{Table, da_refresh}
use pfstrase.Screen.Draw.{header_text, draw_lines}

-- What a handler reads: the time and the shared memory, a key (`none` is ERR), or the window's
-- lines (`none` where ioctl fails). `refresh_timer` is the timer, or the event that was fed to it.
pub data Event : Type 0 where
  refresh_timer : ℕ → String → Event
  stdin_io : ℕ → Option Key → Event
  sigwinch : Option ℕ → Event
  sigint : Event

-- `int new_start = …; if (new_start != scroll_start || status_bar_time < now)`, with `now` in
-- seconds, and what is assigned at the end.
unfoldable pub end_refresh : ℕ → ℕ → ℕ → ℤ → Screen → Screen
end_refresh now last da_len new_start s =
    let moved = ltb_ℤ new_start s.scroll_start || ltb_ℤ s.scroll_start new_start in
    let stale = ltb s.status_bar_time (now / 1000000 * 1000000) in
    let first = new_start +ℤ pos (if eqb da_len 0 then 0 else 1) in
    record s {
      status_bar = if moved || stale then range first last da_len else s.status_bar;
      status_bar_time = if moved || stale then now else s.status_bar_time;
      scroll_start = new_start;
      scroll_delta = pos 0;
      da_refresh_flag = true;
    }

module _ (J : JsonC) (print_14_2f : J.Double → String) where
  open J use {Json, new_object, new_array, items}

  pub record Viewer : Type 0 where
    pub screen : Screen
    pub lines : ℕ
    pub view : View J
    pub group_tags : Json
    pub table : Table J

  -- The header, the rows with their lines, and below them the status bar.
  pub record Frame : Type 0 where
    pub header_tags : String
    pub rows : List (ℕ × String)

  abbrev pub da_len : Table J → ℕ
  da_len table = length (items table.scrdata_array)

  -- What is drawn of a table, and the variables afterwards.
  unfoldable pub draw : ℕ → Viewer → Option (Viewer × Frame)
  draw now v = do
    let n = da_len v.table
    let s = v.screen
    let new_start = clamp_start v.lines n s.scroll_start s.scroll_delta
    let (shown, last) = drawn v.lines n s.scroll_start s.scroll_delta
    header_tags ← header_text J print_14_2f v.group_tags v.table.screvents
    rows ← draw_lines J print_14_2f v.group_tags v.table shown
    some (
      record v { screen = end_refresh now last n new_start s },
      record { header_tags = header_tags; rows = rows },
    )

  unfoldable pub screen_refresh_cb : ℕ → Viewer → Option (Viewer × Frame)
  screen_refresh_cb now v =
      let table =
        if v.screen.da_refresh_flag
        then da_refresh J v.screen.detailed v.screen.sortbykey v.view.screen_map
        else v.table in
      draw now (record v { table = table })

  -- The map that the groups are made of: read again where the flag is set.
  abbrev read_map : String → Viewer → View J
  read_map memory v =
      if v.screen.da_refresh_flag
      then record v.view { server_tag_rate_map = get_shm_map J v.view.server_tag_rate_map memory }
      else v.view

  unfoldable pub refresh_timer_cb : Filters → ℕ → String → Viewer → Option (Viewer × Frame)
  refresh_timer_cb f now memory v = do
    let names = grouped_by v.screen.groupby
    view ← group_ratesbytags J names f (read_map memory v)
    (v', frame) ←
        screen_refresh_cb now (record v { view = view; group_tags = set_group_tags J names })
    some (record v' { screen = record v'.screen { refresh_pending = false } }, frame)

  unfoldable pub stdin_io_cb : ℕ → Option Key → Viewer → Viewer
  stdin_io_cb now none v = v
  stdin_io_cb now (some key) v = record v { screen = screen_key_cb v.lines now key v.screen }

  unfoldable pub sigwinch_cb : Option ℕ → Viewer → Viewer
  sigwinch_cb none v = v
  sigwinch_cb (some ws_row) v = record v { lines = ws_row; screen = screen_refresh v.screen }

  unfoldable pub sigint_cb : Viewer → Viewer
  sigint_cb v = record v { screen = record v.screen { running = false } }

  -- screen_init and screen_start, with the variables that C starts at 0.
  unfoldable pub screen_start : ℕ → View J → Viewer
  screen_start lines view = record {
    screen = record {
      groupby = 0;
      sortbykey = "load_eff";
      detailed = false;
      scroll_start = pos 0;
      scroll_delta = pos 0;
      da_refresh_flag = true;
      status_bar_time = 0;
      status_bar = blank;
      refresh_pending = false;
      running = true;
    };
    lines = lines;
    view = view;
    group_tags = new_object;
    table = record { scrdata_array = new_array; screvents = new_object };
  }

  -- `none` is a row that leaves its array, or what group_ratesbytags leaves undefined.
  unfoldable pub handle : Filters → Event → Viewer → Option Viewer
  handle f (refresh_timer now memory) v = do (v', frame) ← refresh_timer_cb f now memory v; some v'
  handle f (stdin_io now key) v = some (stdin_io_cb now key v)
  handle f (sigwinch ws_row) v = some (sigwinch_cb ws_row v)
  handle f sigint v = some (sigint_cb v)

  -- One round of ev_run, which ends with ev_break.
  pub data Step (f : Filters) : Viewer → Viewer → Type 0 where
    step :
        {v v' : Viewer} (e : Event) → v.screen.running ≡ true → handle f e v ≡ some v' → Step f v v'

  pub data Reachable (f : Filters) : Viewer → Type 0 where
    start : (lines : ℕ) (view : View J) → Reachable f (screen_start lines view)
    next : {v v' : Viewer} → Reachable f v → Step f v v' → Reachable f v'
