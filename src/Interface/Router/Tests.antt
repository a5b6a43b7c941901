-- ===== src/Interface/Router/Tests.antt =====
-- A click on the launcher, and the way from the launcher to the memory screen and back.
use hnmos.Prelude.{◌≡◌, true, false, none, [], refl, arith}
use hnmos.Interface.Events.{Event, event_init, key_down, key_char, key_escape}
use hnmos.Interface.Launcher.{Launcher, launcher, panel_x, render, mouse_down, mouse_up, is_index}
use hnmos.Interface.Launcher.Places.{under}
use hnmos.Interface.Launcher.Clicks.{asked, released_at, click_lem}
use hnmos.Interface.Router.{Ui, dispatch}
use hnmos.Interface.Router
use hnmos.Interface.Router.Calls.{IsSteady}
use hnmos.Interface.Router.Lifecycle.{Reached, starts, steps, dispatches, Reached-IsSteady}

abbrev fresh : Launcher
fresh = record { items = []; pressed_index = none; ready = true }

click_example :
    ((mouse_down 500 280 (render 1024 fresh)).0 ≡ is_index (under (panel_x 1024) 500 280))
    × (asked (mouse_up 510 300 (mouse_down 500 280 (render 1024 fresh)).1)
        ≡ released_at 1024 510 300 (under (panel_x 1024) 500 280))
click_example = click_lem 1024 500 280 510 300 fresh (omega arith) refl

abbrev cold : Ui
cold = record { current = launcher; ready = false; home = fresh; calls = [] }

abbrev typed : Event
typed = record (event_init key_char) { character = b'3' }

abbrev escape : Event
escape = record (event_init key_down) { key_code = key_escape }

abbrev opened : Ui
opened = (dispatch 1024 typed (Router.init 1024 true cold)).1

abbrev closed : Ui
closed = (dispatch 1024 escape opened).1

closed-Reached : Reached 1024 closed
closed-Reached =
    steps (steps (starts true cold refl) (dispatches typed (Router.init 1024 true cold)))
      (dispatches escape opened)

Reached-IsSteady_example : IsSteady closed
Reached-IsSteady_example = Reached-IsSteady 1024 closed-Reached
