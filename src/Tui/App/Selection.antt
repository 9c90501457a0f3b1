-- ===== src/Tui/App/Selection.antt =====
-- Which monitor is selected, and which one the data layer was told of.
use monitra.Base.{
  ℕ, ◌+◌, ◌-◌, ◌<◌, ◌≡◌, refl, true, ◌&&◌, ◌||◌, ◌⊎◌, inl, inr, List, [], ◌∷◌, length, min, ltb,
  leb, if◌then◌else◌, arith, Bool-cases, sym, ap, ◌∙◌,
}
use monitra.Models.{Monitor}
use monitra.Tui.App.{
  App, KeyEvent, KeyCode, char, esc, tab, back_tab, left, right, up, down, enter, other, Event,
  snapshot, key, new, id_at, announce_selection, on_snapshot, next_screen, previous_screen,
  move_down, move_up, on_char, on_code, on_dialog, on_key, run, is_interrupt, closes, monitor, all,
  screen_at,
}

-- A monitor of the list is selected, if it has any, and the data layer was told of that one.
pub record IsShown (app : App) : Type 0 where
  pub within : (app.selected < length app.monitors) ⊎ (length app.monitors ≡ 0)
  pub told : app.announced ≡ id_at app.monitors app.selected

announce-IsShown :
    (app : App)
    → (app.selected < length app.monitors) ⊎ (length app.monitors ≡ 0)
    → IsShown (announce_selection app)
unfolding announce_selection
announce-IsShown app w = record { within = w; told = refl }

-- What neither the selection nor the announcement depends on.
kept-IsShown :
    (app app' : App)
    → app'.selected ≡ app.selected
    → app'.monitors ≡ app.monitors
    → app'.announced ≡ app.announced
    → IsShown app
    → IsShown app'
kept-IsShown app app' s m a h = record {
  within = ground (arith, s, ap (λ ms. length ms) m, h.within);
  told = a ∙ h.told ∙ ap (λ ms. id_at ms app.selected) (sym m) ∙ ap (id_at app'.monitors) (sym s);
}

on_snapshot-IsShown : (app : App) (monitors : List Monitor) → IsShown (on_snapshot app monitors)
unfolding on_snapshot
on_snapshot-IsShown app monitors =
    let count = length monitors in
    announce-IsShown
      (record app {
        monitors = monitors;
        selected = if leb count app.selected && ltb 0 count then count - 1 else app.selected;
      })
      (ground arith)

move_down-IsShown : (app : App) → IsShown app → IsShown (move_down app)
unfolding move_down
move_down-IsShown app h = elim (Bool-cases (ltb 0 (length app.monitors))) [
  | inl some_left ↦ rw some_left (
      announce-IsShown (record app { selected = min (app.selected + 1) (length app.monitors - 1) })
        (inl (ground (arith, some_left))))
  | inr none_left ↦ rw none_left h
]

move_up-IsShown : (app : App) → IsShown app → IsShown (move_up app)
unfolding move_up
move_up-IsShown app h =
    announce-IsShown (record app { selected = app.selected - 1 }) (ground (arith, h.within))

on_char-IsShown : (app : App) (c : ℕ) → IsShown app → IsShown (on_char app c)
unfolding on_char
on_char-IsShown app c h = ground (
  arith,
  h,
  kept-IsShown app (record app { should_quit = true }) refl refl refl h,
  kept-IsShown app (record app { show_help = true }) refl refl refl h,
  kept-IsShown app (record app { show_add = true }) refl refl refl h,
  kept-IsShown app (record app { screen = screen_at all (c - 49) }) refl refl refl h,
  move_down-IsShown app h,
  move_up-IsShown app h,
)

on_code-IsShown : (app : App) (code : KeyCode) → IsShown app → IsShown (on_code app code)
unfolding on_code next_screen previous_screen
on_code-IsShown app (char c) h = on_char-IsShown app c h
on_code-IsShown app tab h = kept-IsShown app _ refl refl refl h
on_code-IsShown app right h = kept-IsShown app _ refl refl refl h
on_code-IsShown app back_tab h = kept-IsShown app _ refl refl refl h
on_code-IsShown app left h = kept-IsShown app _ refl refl refl h
on_code-IsShown app down h = move_down-IsShown app h
on_code-IsShown app up h = move_up-IsShown app h
on_code-IsShown app enter h =
    ground (arith, h, announce-IsShown (record app { screen = monitor }) h.within)
on_code-IsShown app esc h = kept-IsShown app _ refl refl refl h
on_code-IsShown app other h = h

on_key-IsShown : (app : App) (k : KeyEvent) → IsShown app → IsShown (on_key app k)
unfolding on_key on_dialog
on_key-IsShown app k h = elim (Bool-cases (is_interrupt k)) [
  | inl interrupt ↦ rw interrupt (kept-IsShown app _ refl refl refl h)
  | inr plain ↦ elim (Bool-cases (app.show_help || app.show_add)) [
    | inl dialog ↦
        rw (plain, dialog)
          (elim (Bool-cases (closes k.code)) [
            | inl e ↦ rw e (kept-IsShown app _ refl refl refl h)
            | inr e ↦ rw e h
          ])
    | inr open_view ↦ rw (plain, open_view) (on_code-IsShown app k.code h)
  ]
]

run_from-IsShown : (app : App) (events : List Event) → IsShown app → IsShown (run app events)
unfolding run
run_from-IsShown app [] h = h
run_from-IsShown app (snapshot monitors ∷ events) h =
    run_from-IsShown (on_snapshot app monitors) events (on_snapshot-IsShown app monitors)
run_from-IsShown app (key k ∷ events) h =
    run_from-IsShown (on_key app k) events (on_key-IsShown app k h)

-- From the start, under any keys and snapshots: the selection is within the list of monitors, or the
-- list is empty; and the data layer was told last of the monitor that is selected, or of none where
-- there is none.
pub run-IsShown : (events : List Event) → IsShown (run new events)
unfolding new id_at
run-IsShown events = run_from-IsShown new events (record { within = inr refl; told = refl })
