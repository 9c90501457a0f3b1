-- ===== src/Tui/App/Tests.antt =====
-- A session of the terminal interface, and an instance of the theorem.
use monitra.Base.{ℕ, ◌≡◌, refl, false, none, some, List, [], ◌∷◌}
use monitra.Models.{Monitor, http, up}
use monitra.Tui.App.{
  KeyCode, char, down, enter, Event, snapshot, key, new, run, on_key, on_snapshot, on_code, on_char,
  move_down, announce_selection, id_at,
}
use monitra.Tui.App.Selection.{IsShown, run-IsShown}

abbrev watched : ℕ → Monitor
watched id = record {
  id = id;
  name = "m";
  target = "https://h";
  kind = http;
  interval_secs = 60;
  status = up;
  agent_id = none;
}

abbrev pressed : KeyCode → Event
pressed code = key (record { code = code; control = false })

-- Two steps down a list of three, which then shrinks to one.
abbrev session : List Event
session =
    snapshot (watched 4 ∷ watched 5 ∷ watched 6 ∷ [])
    ∷ pressed down
    ∷ pressed (char 106)
    ∷ pressed enter
    ∷ snapshot (watched 4 ∷ [])
    ∷ []

session_end : (run new session).announced ≡ some 4
unfolding run new on_key on_snapshot on_code on_char move_down announce_selection id_at
session_end = refl

run-IsShown_example : IsShown (run new session)
run-IsShown_example = run-IsShown session
