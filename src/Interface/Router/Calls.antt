-- ===== src/Interface/Router/Calls.antt =====
-- Which of the router's calls may follow which, and the single calls that keep to it.
use hnmos.Prelude.{
  ◌≡◌, refl, ap, ◌∙◌, true, Option, none, some, List, [], ◌∷◌, if◌then◌else◌, Bool-cases, inl, inr,
}
use hnmos.Interface.Launcher.{
  ScreenId, launcher, terminal, system, memory, ai_studio, screen_count, Request, stay, open_screen,
  shut_down,
}
use hnmos.Interface.Router.{
  Call, sets_up, enters, exits, renders, handles, top_bar, help_overlay, halts, Ui, screen_number,
  is_screen, call, find_screen, screen_on_enter, screen_on_exit,
}

-- The screen that is open after a call, if the call is one that may come: a screen is entered when
-- none is open, and what is drawn, given an event or left is the screen that is open.
unfoldable pub next_open : Call → Option ScreenId → Option (Option ScreenId)
next_open (sets_up s) o = some o
next_open (enters s) none = some (some s)
next_open (enters s) (some t) = none
next_open (exits s) none = none
next_open (exits s) (some t) = if is_screen s t then some none else none
next_open (renders s) none = none
next_open (renders s) (some t) = if is_screen s t then some (some t) else none
next_open (handles s) none = none
next_open (handles s) (some t) = if is_screen s t then some (some t) else none
next_open top_bar o = some o
next_open help_overlay o = some o
next_open halts o = some o

abbrev after_call : Call → Option (Option ScreenId) → Option (Option ScreenId)
after_call c none = none
after_call c (some o) = next_open c o

-- The screen that is open after all calls, the latest first.
unfoldable pub open_after : List Call → Option (Option ScreenId)
open_after [] = some none
open_after (c ∷ cs) = after_call c (open_after cs)

-- The router is ready, its screen is in the table, and it is the one that is open.
pub record IsSteady (ui : Ui) : Type 0 where
  pub ready : ui.ready ≡ true
  pub found : find_screen ui.current ≡ some ui.current
  pub opened : open_after ui.calls ≡ some (some ui.current)

is_screen_refl : (s : ScreenId) → is_screen s s ≡ true
unfolding screen_number
is_screen_refl launcher = refl
is_screen_refl terminal = refl
is_screen_refl system = refl
is_screen_refl memory = refl
is_screen_refl ai_studio = refl
is_screen_refl screen_count = refl

-- A call that leaves the screen that is open as it is.
pub call-IsSteady :
    (c : Call) (ui : Ui)
    → next_open c (some ui.current) ≡ some (some ui.current)
    → IsSteady ui
    → IsSteady (call c ui)
unfolding open_after
call-IsSteady c ui e v = record {
  ready = v.ready;
  found = v.found;
  opened = ap (after_call c) v.opened ∙ e;
}

pub renders-stays : (s : ScreenId) → next_open (renders s) (some s) ≡ some (some s)
unfolding next_open
renders-stays s = rw (is_screen_refl s) refl

pub handles-stays : (s : ScreenId) → next_open (handles s) (some s) ≡ some (some s)
unfolding next_open
handles-stays s = rw (is_screen_refl s) refl

-- The launcher's own state does not matter.
pub with_home-IsSteady :
    (ui : Ui) (home : hnmos.Interface.Launcher.Launcher)
    → IsSteady ui
    → IsSteady (record ui { home = home })
with_home-IsSteady ui home v = record { ready = v.ready; found = v.found; opened = v.opened }

pub screen_on_exit-opened :
    (ui : Ui)
    → open_after ui.calls ≡ some (some ui.current)
    → (open_after (screen_on_exit ui.current ui).calls ≡ some none)
      × ((screen_on_exit ui.current ui).ready ≡ ui.ready)
unfolding screen_on_exit open_after next_open
screen_on_exit-opened ui e = elim (Bool-cases (is_screen ui.current launcher)) [
  | inl h ↦
      rw (h, screen_on_exit)
        (ap (after_call (exits ui.current)) e ∙ rw (is_screen_refl ui.current) refl, refl)
  | inr h ↦
      rw (h, screen_on_exit)
        (ap (after_call (exits ui.current)) e ∙ rw (is_screen_refl ui.current) refl, refl)
]

pub screen_on_enter-IsSteady :
    (ui : Ui)
    → ui.ready ≡ true
    → find_screen ui.current ≡ some ui.current
    → open_after ui.calls ≡ some none
    → IsSteady (screen_on_enter ui.current ui)
unfolding screen_on_enter open_after next_open
screen_on_enter-IsSteady ui r f e = elim (Bool-cases (is_screen ui.current launcher)) [
  | inl h ↦
      rw (h, screen_on_enter)
        (record { ready = r; found = f; opened = ap (after_call (enters ui.current)) e })
  | inr h ↦
      rw (h, screen_on_enter)
        (record { ready = r; found = f; opened = ap (after_call (enters ui.current)) e })
]
