-- ===== src/Tui/App.antt =====
-- crates/tui/src/app.rs: the view state, the keys and the snapshots. A character is its code point,
-- and `announced` is the latest value that the data layer was sent.
pub mod Selection
mod Tests
use monitra.Base.{
  ℕ, zero, suc, ◌+◌, ◌-◌, ◌%◌, String, Bool, true, false, ◌&&◌, ◌||◌, Option, none, some, List, [],
  ◌∷◌, length, min, ltb, leb, ◌==◌, if◌then◌else◌,
}
use monitra.Models.{Monitor}

pub data Screen : Type 0 where
  fleet monitor agents kubernetes alerts health services : Screen

-- `Screen::ALL` and the position of a screen in it.
abbrev pub all : List Screen
all = fleet ∷ monitor ∷ agents ∷ kubernetes ∷ alerts ∷ health ∷ services ∷ []

abbrev pub position : Screen → ℕ
position fleet = 0
position monitor = 1
position agents = 2
position kubernetes = 3
position alerts = 4
position health = 5
position services = 6

abbrev pub is_fleet : Screen → Bool
is_fleet fleet = true
is_fleet _ = false

unfoldable pub screen_at : List Screen → ℕ → Screen
screen_at [] i = fleet
screen_at (screen ∷ screens) zero = screen
screen_at (screen ∷ screens) (suc i) = screen_at screens i

pub data KeyCode : Type 0 where
  char : ℕ → KeyCode
  esc tab back_tab left right up down enter other : KeyCode

pub record KeyEvent : Type 0 where
  pub code : KeyCode
  pub control : Bool

-- The snapshot is the part of it that the view state reads, the monitors.
pub record App : Type 0 where
  pub screen : Screen
  pub selected : ℕ
  pub show_help : Bool
  pub show_add : Bool
  pub should_quit : Bool
  pub monitors : List Monitor
  pub announced : Option ℕ

unfoldable pub new : App
new = record {
  screen = fleet;
  selected = 0;
  show_help = false;
  show_add = false;
  should_quit = false;
  monitors = [];
  announced = none;
}

unfoldable pub id_at : List Monitor → ℕ → Option ℕ
id_at [] i = none
id_at (m ∷ monitors) zero = some m.id
id_at (m ∷ monitors) (suc i) = id_at monitors i

unfoldable pub announce_selection : App → App
unfolding id_at
announce_selection app = record app { announced = id_at app.monitors app.selected }

unfoldable pub on_snapshot : App → List Monitor → App
unfolding announce_selection
on_snapshot app monitors =
    let count = length monitors in
    announce_selection (record app {
      monitors = monitors;
      selected = if leb count app.selected && ltb 0 count then count - 1 else app.selected;
    })

unfoldable pub next_screen : App → App
unfolding screen_at
next_screen app = record app { screen = screen_at all ((position app.screen + 1) % length all) }

unfoldable pub previous_screen : App → App
unfolding screen_at
previous_screen app = record app {
  screen = screen_at all ((position app.screen + length all - 1) % length all);
}

unfoldable pub move_down : App → App
unfolding announce_selection
move_down app =
    let count = length app.monitors in
    if ltb 0 count
    then announce_selection (record app { selected = min (app.selected + 1) (count - 1) })
    else app

unfoldable pub move_up : App → App
unfolding announce_selection
move_up app = announce_selection (record app { selected = app.selected - 1 })

-- The arms of the last `match` for a character: q, ?, a, 1 to 7, j and k.
unfoldable pub on_char : App → ℕ → App
unfolding move_down move_up screen_at
on_char app c =
    if c == 113
    then record app { should_quit = true }
    else (if c == 63
        then record app { show_help = true }
        else (if c == 97 && is_fleet app.screen
            then record app { show_add = true }
            else (if leb 49 c && leb c 55
                then record app { screen = screen_at all (c - 49) }
                else (if c == 106
                    then move_down app
                    else (if c == 107 then move_up app else app)))))

unfoldable pub on_code : App → KeyCode → App
unfolding on_char next_screen previous_screen move_down move_up announce_selection
on_code app (char c) = on_char app c
on_code app tab = next_screen app
on_code app right = next_screen app
on_code app back_tab = previous_screen app
on_code app left = previous_screen app
on_code app down = move_down app
on_code app up = move_up app
on_code app enter =
    if is_fleet app.screen then announce_selection (record app { screen = monitor }) else app
on_code app esc = record app { screen = fleet }
on_code app other = app

-- Ctrl and c.
abbrev pub is_interrupt : KeyEvent → Bool
is_interrupt key = elim key.code [ char c ↦ c == 99 && key.control | _ ↦ false ]

-- What closes a dialog.
abbrev pub closes : KeyCode → Bool
closes esc = true
closes (char c) = c == 113
closes _ = false

unfoldable pub on_dialog : App → KeyCode → App
on_dialog app code = if closes code then record app { show_help = false; show_add = false } else app

unfoldable pub on_key : App → KeyEvent → App
unfolding on_code on_dialog
on_key app key =
    if is_interrupt key
    then record app { should_quit = true }
    else (if app.show_help || app.show_add then on_dialog app key.code else on_code app key.code)

-- What the render loop gives the state.
pub data Event : Type 0 where
  snapshot : List Monitor → Event
  key : KeyEvent → Event

unfoldable pub run : App → List Event → App
unfolding on_snapshot on_key
run app [] = app
run app (snapshot monitors ∷ events) = run (on_snapshot app monitors) events
run app (key k ∷ events) = run (on_key app k) events
