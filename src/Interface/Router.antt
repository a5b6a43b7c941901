-- ===== src/Interface/Router.antt =====
-- The screen router, kernel01/kernel/interface/router.c. The screens' own functions are a record of
-- calls, the latest first; those of the launcher also change it. The handlers of the terminal and of
-- the AI Studio are not part of the model: the router passes the event on to them.
pub mod Calls
pub mod Lifecycle
mod Tests
use hnmos.Prelude.{
  ℕ, Bool, true, false, not, ◌&&◌, ◌||◌, Option, none, some, List, [], ◌∷◌, ◌==◌, if◌then◌else◌,
}
use hnmos.Interface.Events.{
  Event, EventType, no_event, key_down, key_char, mouse_move, mouse_button_down, mouse_button_up,
  key_escape, key_f1,
}
use hnmos.Interface.Launcher
use hnmos.Interface.Launcher.{
  ScreenId, launcher, terminal, system, memory, ai_studio, screen_count, Launcher, Request, stay,
  open_screen, shut_down,
}

-- What the router calls.
pub data Call : Type 0 where
  sets_up enters exits renders handles : ScreenId → Call
  top_bar help_overlay halts : Call

pub record Ui : Type 0 where
  pub current : ScreenId
  pub ready : Bool
  pub home : Launcher
  pub calls : List Call

unfoldable pub screen_number : ScreenId → ℕ
screen_number launcher = 0
screen_number terminal = 1
screen_number system = 2
screen_number memory = 3
screen_number ai_studio = 4
screen_number screen_count = 5

abbrev pub is_screen : ScreenId → ScreenId → Bool
is_screen a b = screen_number a == screen_number b

abbrev pub call : Call → Ui → Ui
call c ui = record ui { calls = c ∷ ui.calls }

-- `hnm_router_find_screen`: the screen, if the table has it.
unfoldable pub find_screen : ScreenId → Option ScreenId
find_screen launcher = some launcher
find_screen terminal = some terminal
find_screen system = some system
find_screen memory = some memory
find_screen ai_studio = some ai_studio
find_screen screen_count = none

-- The functions of the table, and what they do to the launcher.
unfoldable pub screen_on_enter : ScreenId → Ui → Ui
screen_on_enter id ui =
    let entered = call (enters id) ui in
    if is_screen id launcher then record entered { home = Launcher.on_enter ui.home } else entered

unfoldable pub screen_on_exit : ScreenId → Ui → Ui
screen_on_exit id ui =
    let exited = call (exits id) ui in
    if is_screen id launcher then record exited { home = Launcher.on_exit ui.home } else exited

unfoldable pub exit_current : Ui → Ui
exit_current ui = elim (find_screen ui.current) [ none ↦ ui | some id ↦ screen_on_exit id ui ]

module _ (screen_width : ℕ) where
  unfoldable pub screen_render : ScreenId → Ui → Ui
  screen_render id ui =
      let rendered = call (renders id) ui in
      if is_screen id launcher
      then record rendered { home = Launcher.render screen_width ui.home }
      else rendered

  unfoldable pub render_current : Ui → Ui
  render_current ui = elim (find_screen ui.current) [
    | none ↦ ui
    | some id ↦
        let framed =
          if not (is_screen id launcher) && not (is_screen id terminal)
          then call top_bar ui
          else ui in
        if not ui.ready then ui else screen_render id framed
  ]

  unfoldable pub set_screen : ScreenId → Ui → Ui
  set_screen screen_id ui =
      let moved : Ui = record (exit_current ui) { current = screen_id } in
      elim (find_screen screen_id) [
        | none ↦ ui
        | some next ↦
            if not ui.ready
            then ui
            else (if is_screen screen_id ui.current
                then render_current ui
                else render_current (screen_on_enter next moved))
      ]

  unfoldable pub back : Ui → Ui
  back ui = if is_screen ui.current launcher then render_current ui else set_screen launcher ui

  abbrev is_kind : EventType → EventType → Bool
  is_kind key_down key_down = true
  is_kind key_char key_char = true
  is_kind a b = false

  unfoldable pub global_shortcut : Event → Ui → Bool × Ui
  global_shortcut event ui =
      if is_screen ui.current terminal
        || is_screen ui.current launcher
        || is_screen ui.current ai_studio
        || not (is_kind event.kind key_char)
      then (false, ui)
      else (if event.character == b'1'
          then (true, set_screen terminal ui)
          else (if event.character == b'2'
              then (true, set_screen system ui)
              else (if event.character == b'3'
                  then (true, set_screen memory ui)
                  else (if event.character == b'4'
                      then (true, call halts ui)
                      else (if event.character == b'5'
                          then (true, set_screen ai_studio ui)
                          else (false, ui))))))

  -- What the launcher asks for.
  unfoldable pub grant : Request → Ui → Ui
  grant stay ui = ui
  grant (open_screen id) ui = set_screen id ui
  grant shut_down ui = call halts ui

  abbrev launcher_event : Event → Ui → Option Bool × Ui
  launcher_event event ui =
      let (used, request, home) = Launcher.handle_event event ui.home in
      (some used, grant request (record ui { home = home }))

  -- The handler of a screen; its result, where it is part of the model.
  unfoldable pub screen_handle_event : ScreenId → Event → Ui → Option Bool × Ui
  screen_handle_event launcher event ui = launcher_event event (call (handles launcher) ui)
  screen_handle_event terminal event ui = (none, call (handles terminal) ui)
  screen_handle_event system event ui = (some false, call (handles system) ui)
  screen_handle_event memory event ui = (some false, call (handles memory) ui)
  screen_handle_event ai_studio event ui = (none, call (handles ai_studio) ui)
  screen_handle_event screen_count event ui = (some false, ui)

  -- `ui_dispatch_event_to_current_screen`
  unfoldable pub dispatch : Event → Ui → Option Bool × Ui
  dispatch event ui =
      let (used, taken) = global_shortcut event ui in
      if not ui.ready
      then (some false, ui)
      else (if is_kind event.kind key_down
            && (event.key_code == key_escape)
            && not (is_screen ui.current launcher)
          then (some true, back ui)
          else (if is_kind event.kind key_down && (event.key_code == key_f1)
              then (some true, call help_overlay (render_current ui))
              else (if used then (some true, taken) else screen_handle_event ui.current event ui)))

  abbrev set_up_screens : Bool → Ui → Ui
  set_up_screens available ui =
      record (call (sets_up ai_studio) (
        call (sets_up memory)
          (call (sets_up system) (call (sets_up terminal) (call (sets_up launcher) ui))))) {
            home = Launcher.init available ui.home;
          }

  -- `ui_router_init`, where the framebuffer is there or not.
  unfoldable pub init : Bool → Ui → Ui
  init available ui = render_current (
      screen_on_enter launcher
        (record (set_up_screens available ui) { current = launcher; ready = true }))
