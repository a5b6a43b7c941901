-- ===== src/Interface/Router/Lifecycle.antt =====
-- The screens are entered, drawn, given events and left in the order that their functions expect.
use hnmos.Prelude.{
  ℕ, ◌≡◌, refl, ap, ◌∙◌, Bool, true, false, not, ◌&&◌, none, some, [], if◌then◌else◌, arith,
  Bool-cases, inl, inr, ◌⊎◌,
}
use mathlib.Core.Path.{subst, subst⁻¹}
use hnmos.Interface.Events.{Event}
use hnmos.Interface.Launcher.{
  ScreenId, launcher, terminal, system, memory, ai_studio, screen_count, Request, stay, open_screen,
  shut_down,
}
use hnmos.Interface.Router.{
  renders, handles, top_bar, help_overlay, halts, Ui, is_screen, call, find_screen, screen_on_enter,
  screen_on_exit, screen_render, render_current, exit_current, set_screen, back, global_shortcut,
  grant, screen_handle_event, dispatch, init,
}
use hnmos.Interface.Router.Calls.{
  IsSteady, call-IsSteady, handles-stays, next_open, open_after, renders-stays,
  screen_on_enter-IsSteady, screen_on_exit-opened, with_home-IsSteady,
}

module _ (w : ℕ) where
  screen_render-IsSteady : (ui : Ui) → IsSteady ui → IsSteady (screen_render w ui.current ui)
  unfolding screen_render
  screen_render-IsSteady ui v =
      let drawn = call-IsSteady (renders ui.current) ui (renders-stays ui.current) v in
      elim (Bool-cases (is_screen ui.current launcher)) [
        | inl h ↦ rw (h, screen_render) (with_home-IsSteady _ _ drawn)
        | inr h ↦ rw (h, screen_render) drawn
      ]

  render_current-found :
      (ui : Ui) (id : ScreenId)
      → find_screen ui.current ≡ some id
      → render_current w ui ≡ (
          if not ui.ready
          then ui
          else screen_render w id (
              if not (is_screen id launcher) && not (is_screen id terminal)
              then call top_bar ui
              else ui))
  unfolding render_current
  render_current-found ui id e = rw (e, render_current) refl

  framed-IsSteady :
      (ui : Ui) (b : Bool)
      → IsSteady ui
      → IsSteady (screen_render w ui.current (if b then call top_bar ui else ui))
  unfolding next_open
  framed-IsSteady ui true v =
      screen_render-IsSteady (call top_bar ui) (call-IsSteady top_bar ui refl v)
  framed-IsSteady ui false v = screen_render-IsSteady ui v

  render_current-IsSteady : (ui : Ui) → IsSteady ui → IsSteady (render_current w ui)
  render_current-IsSteady ui v =
      subst⁻¹ IsSteady
        (render_current-found ui ui.current v.found
          ∙ ap
              (λ (b : Bool).
                if not b
                then ui
                else screen_render w ui.current (
                    if not (is_screen ui.current launcher) && not (is_screen ui.current terminal)
                    then call top_bar ui
                    else ui))
              v.ready)
        (framed-IsSteady ui
          (not (is_screen ui.current launcher) && not (is_screen ui.current terminal)) v)

  -- The router after it has left its screen for another.
  switched : ScreenId → Ui → Ui
  switched id ui = screen_on_enter id (record (screen_on_exit ui.current ui) { current = id })

  exit_current-found :
      (ui : Ui)
      → find_screen ui.current ≡ some ui.current
      → exit_current ui ≡ screen_on_exit ui.current ui
  unfolding exit_current
  exit_current-found ui f = rw (f, exit_current) refl

  set_screen-found :
      (id : ScreenId) (ui : Ui)
      → find_screen id ≡ some id
      → find_screen ui.current ≡ some ui.current
      → set_screen w id ui ≡ (
          if not ui.ready
          then ui
          else (if is_screen id ui.current
              then render_current w ui
              else render_current w (switched id ui)))
  unfolding set_screen switched
  set_screen-found id ui e f = rw (e, exit_current-found ui f, set_screen) refl

  switched-IsSteady :
      (id : ScreenId) (ui : Ui) → find_screen id ≡ some id → IsSteady ui → IsSteady (switched id ui)
  unfolding switched
  switched-IsSteady id ui e v =
      let (left, same_ready) = screen_on_exit-opened ui v.opened in
      screen_on_enter-IsSteady (record (screen_on_exit ui.current ui) { current = id })
        (same_ready ∙ v.ready) e left

  either-IsSteady :
      (ui : Ui) (b : Bool) (id : ScreenId)
      → find_screen id ≡ some id
      → IsSteady ui
      → IsSteady (if b then render_current w ui else render_current w (switched id ui))
  either-IsSteady ui true id e v = render_current-IsSteady ui v
  either-IsSteady ui false id e v =
      render_current-IsSteady (switched id ui) (switched-IsSteady id ui e v)

  set_screen-none : (id : ScreenId) (ui : Ui) → find_screen id ≡ none → set_screen w id ui ≡ ui
  unfolding set_screen
  set_screen-none id ui e = rw (e, set_screen) refl

  table : (id : ScreenId) → (find_screen id ≡ none) ⊎ (find_screen id ≡ some id)
  unfolding find_screen
  table launcher = inr refl
  table terminal = inr refl
  table system = inr refl
  table memory = inr refl
  table ai_studio = inr refl
  table screen_count = inl refl

  set_screen-IsSteady : (id : ScreenId) (ui : Ui) → IsSteady ui → IsSteady (set_screen w id ui)
  set_screen-IsSteady id ui v = elim (table id) [
    | inl e ↦ subst⁻¹ IsSteady (set_screen-none id ui e) v
    | inr e ↦
        subst⁻¹ IsSteady
          (set_screen-found id ui e v.found
            ∙ ap
                (λ (b : Bool).
                  if not b
                  then ui
                  else (if is_screen id ui.current
                      then render_current w ui
                      else render_current w (switched id ui)))
                v.ready)
          (either-IsSteady ui (is_screen id ui.current) id e v)
  ]

  if-IsSteady : (b : Bool) (x y : Ui) → IsSteady x → IsSteady y → IsSteady (if b then x else y)
  if-IsSteady true x y v u = v
  if-IsSteady false x y v u = u

  back-IsSteady : (ui : Ui) → IsSteady ui → IsSteady (back w ui)
  unfolding back
  back-IsSteady ui v =
      if-IsSteady (is_screen ui.current launcher) _ _ (render_current-IsSteady ui v)
        (set_screen-IsSteady launcher ui v)

  halts-IsSteady : (ui : Ui) → IsSteady ui → IsSteady (call halts ui)
  unfolding next_open
  halts-IsSteady ui v = call-IsSteady halts ui refl v

  grant-IsSteady : (r : Request) (ui : Ui) → IsSteady ui → IsSteady (grant w r ui)
  unfolding grant
  grant-IsSteady stay ui v = v
  grant-IsSteady (open_screen id) ui v = set_screen-IsSteady id ui v
  grant-IsSteady shut_down ui v = halts-IsSteady ui v

  global_shortcut-IsSteady :
      (e : Event) (ui : Ui) → IsSteady ui → IsSteady (global_shortcut w e ui).1
  unfolding global_shortcut
  global_shortcut-IsSteady e ui v = ground (
    arith,
    v,
    set_screen-IsSteady terminal ui v,
    set_screen-IsSteady system ui v,
    set_screen-IsSteady memory ui v,
    set_screen-IsSteady ai_studio ui v,
    halts-IsSteady ui v,
  )

  handles-IsSteady :
      (id : ScreenId) (ui : Ui) → ui.current ≡ id → IsSteady ui → IsSteady (call (handles id) ui)
  handles-IsSteady id ui e v =
      call-IsSteady (handles id) ui
        (subst (λ s. next_open (handles s) (some ui.current) ≡ some (some ui.current)) e
          (handles-stays ui.current))
        v

  screen_handle_event-IsSteady :
      (id : ScreenId) (e : Event) (ui : Ui)
      → ui.current ≡ id
      → IsSteady ui
      → IsSteady (screen_handle_event w id e ui).1
  unfolding screen_handle_event
  screen_handle_event-IsSteady launcher e ui c v =
      grant-IsSteady _ _
        (with_home-IsSteady (call (handles launcher) ui) _ (handles-IsSteady launcher ui c v))
  screen_handle_event-IsSteady terminal e ui c v = handles-IsSteady terminal ui c v
  screen_handle_event-IsSteady system e ui c v = handles-IsSteady system ui c v
  screen_handle_event-IsSteady memory e ui c v = handles-IsSteady memory ui c v
  screen_handle_event-IsSteady ai_studio e ui c v = handles-IsSteady ai_studio ui c v
  screen_handle_event-IsSteady screen_count e ui c v = v

  help_overlay-IsSteady : (ui : Ui) → IsSteady ui → IsSteady (call help_overlay ui)
  unfolding next_open
  help_overlay-IsSteady ui v = call-IsSteady help_overlay ui refl v

  dispatch-IsSteady : (e : Event) (ui : Ui) → IsSteady ui → IsSteady (dispatch w e ui).1
  unfolding dispatch
  dispatch-IsSteady e ui v = ground (
    arith,
    v,
    back-IsSteady ui v,
    help_overlay-IsSteady (render_current w ui) (render_current-IsSteady ui v),
    global_shortcut-IsSteady e ui v,
    screen_handle_event-IsSteady ui.current e ui refl v,
  )

  init-IsSteady : (available : Bool) (ui : Ui) → ui.calls ≡ [] → IsSteady (init w available ui)
  unfolding init open_after next_open find_screen
  init-IsSteady available ui e =
      render_current-IsSteady _ (screen_on_enter-IsSteady _ refl refl (rw e refl))

  -- What the kernel does with the router once it has started it: an event is dispatched, a screen
  -- is asked for by its number, or the way back is taken.
  pub data Step : Ui → Ui → Type 0 where
    dispatches : (e : Event) (ui : Ui) → Step ui (dispatch w e ui).1
    sets : (id : ScreenId) (ui : Ui) → Step ui (set_screen w id ui)
    goes_back : (ui : Ui) → Step ui (back w ui)

  -- The states after a start, with no call before it.
  pub data Reached : Ui → Type 0 where
    starts : (available : Bool) (ui : Ui) → ui.calls ≡ [] → Reached (init w available ui)
    steps : {before after : Ui} → Reached before → Step before after → Reached after

  Step-IsSteady : {before after : Ui} → IsSteady before → Step before after → IsSteady after
  Step-IsSteady v (dispatches e ui) = dispatch-IsSteady e ui v
  Step-IsSteady v (sets id ui) = set_screen-IsSteady id ui v
  Step-IsSteady v (goes_back ui) = back-IsSteady ui v

  -- In every state that the router reaches, whatever events and requests come and in whatever order,
  -- its screen is one of the table, and the calls up to then are in order: a screen was entered only
  -- when the one before it had been left, and what was drawn, given an event or left was each time
  -- the screen that had been entered last; that screen is the current one.
  pub Reached-IsSteady : {ui : Ui} → Reached ui → IsSteady ui
  Reached-IsSteady (starts available ui e) = init-IsSteady available ui e
  Reached-IsSteady (steps r s) = Step-IsSteady (Reached-IsSteady r) s
