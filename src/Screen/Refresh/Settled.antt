-- ===== src/Screen/Refresh/Settled.antt =====
-- What holds in the viewer between two events.
use pfstrase.Prelude.{
  ℕ, String, true, false, ◌≡◌, refl, none, some, >>=-eq-some, some_inj, ℤ, pos, negsuc, arith,
  Bool-cases, inl, inr,
}
use pfstrase.Prelude.Int.{neg_part, ◌+ℤ◌, ◌-ℤ◌, wrap32}
use pfstrase.Json.{JsonC}
use pfstrase.Stats.View.{Filters}
use pfstrase.Screen.Keys.{Key, Screen, screen_key_cb, screen_refresh, is_quit}
use pfstrase.Screen.Keys.Effects.{
  IsValid, screen_key_cb-IsValid, screen_key_cb-quit, screen_key_cb-other,
}
use pfstrase.Screen.Scroll.{clamp_start, max_int, min_int}
use pfstrase.Screen.Refresh.Cases.{refresh_timer_cb_cases, table_of, window}
use pfstrase.Screen.Refresh.{
  Event, refresh_timer, stdin_io, sigwinch, sigint, end_refresh, Viewer, da_len, refresh_timer_cb,
  stdin_io_cb, sigwinch_cb, sigint_cb, screen_start, handle, step, Reachable, start, next,
}

-- Unless a refresh is pending or the viewer ends, the data is read at the next refresh and all
-- scrolling is done. The window never starts before the table.
pub record IsSettled (s : Screen) : Type 0 where
  pub valid : IsValid s
  pub window : neg_part s.scroll_start ≡ 0
  pub reads : s.refresh_pending ≡ false → s.da_refresh_flag ≡ true
  pub scrolled : s.refresh_pending ≡ false → s.scroll_delta ≡ pos 0

max_int-window : (a : ℤ) → neg_part (max_int a (pos 0)) ≡ 0
max_int-window (pos n) = ground arith
max_int-window (negsuc n) = ground arith

clamp_start-window :
    (lines n : ℕ) (scroll_start scroll_delta : ℤ)
    → neg_part (clamp_start lines n scroll_start scroll_delta) ≡ 0
unfolding clamp_start
clamp_start-window lines n scroll_start scroll_delta =
    max_int-window
      (min_int (wrap32 (scroll_start +ℤ scroll_delta)) (wrap32 (pos n -ℤ (pos lines -ℤ pos 2))))

screen_key_cb-IsSettled :
    (lines now : ℕ) (key : Key) (s : Screen)
    → IsSettled s
    → IsSettled (screen_key_cb lines now key s)
screen_key_cb-IsSettled lines now key s h = elim (Bool-cases (is_quit key)) [
  | inl quit ↦ rw (screen_key_cb-quit lines now key s quit) (record {
    valid = record { choice = h.valid.choice; sorted = h.valid.sorted };
    window = h.window;
    reads = h.reads;
    scrolled = h.scrolled;
  })
  | inr other ↦
      let (kept, held, pending) = screen_key_cb-other lines now key s other in
      record {
        valid = screen_key_cb-IsValid lines now key s h.valid;
        window = rw kept.start h.window;
        reads = λ settled. ground (arith, pending, settled);
        scrolled = λ settled. ground (arith, pending, settled);
      }
]

end_refresh-IsSettled :
    (now last n lines : ℕ) (s : Screen)
    → IsValid s
    → IsSettled
        (record (end_refresh now last n (clamp_start lines n s.scroll_start s.scroll_delta) s) {
          refresh_pending = false;
        })
unfolding end_refresh
end_refresh-IsSettled now last n lines s h = record {
  valid = record { choice = h.choice; sorted = h.sorted };
  window = clamp_start-window lines n s.scroll_start s.scroll_delta;
  reads = λ _. refl;
  scrolled = λ _. refl;
}

screen_refresh-IsSettled : (s : Screen) → IsSettled s → IsSettled (screen_refresh s)
unfolding screen_refresh
screen_refresh-IsSettled s h = ground (arith, h.reads, h.scrolled)

module _ (J : JsonC) (print_14_2f : J.Double → String) where
  abbrev V : Type 0
  V = Viewer J print_14_2f

  handle-IsSettled :
      (f : Filters) (e : Event) (v v' : V)
      → IsSettled v.screen
      → handle J print_14_2f f e v ≡ some v'
      → IsSettled v'.screen
  unfolding handle stdin_io_cb sigwinch_cb sigint_cb
  handle-IsSettled f (refresh_timer now memory) v v' h done =
      let (shown, refreshed, is_first) =
        >>=-eq-some (refresh_timer_cb J print_14_2f f now memory v) (λ p. some p.0) done in
      let (view, grouped, r) =
        refresh_timer_cb_cases J print_14_2f f now memory v shown.0 shown.1 refreshed in
      let table = table_of J print_14_2f view v in
      rw (← some_inj is_first, r.screen)
        (end_refresh-IsSettled now (window J print_14_2f table v).1 (da_len J print_14_2f table)
          v.lines v.screen h.valid)
  handle-IsSettled f (stdin_io now none) v v' h done = rw (← some_inj done) h
  handle-IsSettled f (stdin_io now (some key)) v v' h done =
      rw (← some_inj done) (screen_key_cb-IsSettled v.lines now key v.screen h)
  handle-IsSettled f (sigwinch none) v v' h done = rw (← some_inj done) h
  handle-IsSettled f (sigwinch (some ws_row)) v v' h done =
      rw (← some_inj done) (screen_refresh-IsSettled v.screen h)
  handle-IsSettled f sigint v v' h done = rw (← some_inj done) (record {
    valid = record { choice = h.valid.choice; sorted = h.valid.sorted };
    window = h.window;
    reads = h.reads;
    scrolled = h.scrolled;
  })

  -- After any sequence of events the viewer's choices are valid and its window does not start
  -- before the table; unless a refresh is pending, the next one reads the data again, and no
  -- scrolling is left to do.
  pub Reachable-IsSettled : (f : Filters) (v : V) → Reachable J print_14_2f f v → IsSettled v.screen
  unfolding screen_start
  Reachable-IsSettled f v (start lines view) = record {
    valid = record { choice = omega arith; sorted = inl refl };
    window = refl;
    reads = λ _. refl;
    scrolled = λ _. refl;
  }
  Reachable-IsSettled f v (next before (step e running done)) =
      handle-IsSettled f e _ v (Reachable-IsSettled f _ before) done
