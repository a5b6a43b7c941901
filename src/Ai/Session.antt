-- ===== src/Ai/Session.antt =====
-- The session with a provider, kernel01/kernel/ai/ai_session.{h,c}: the sign-in state machine and the
-- buffer of the secret that is typed.
pub mod Secret
pub mod Submit
pub mod Reach
use Prim.Native.String.{String}
use hnmos.Prelude.{
  ℕ, zero, suc, ◌+◌, ◌-◌, Bool, true, false, not, ◌&&◌, ◌||◌, Option, none, some, List, [], ◌∷◌,
  ltb, leb, ◌==◌, if◌then◌else◌, set, replicate,
}
use hnmos.Prelude.Buffer.{c_str}
use hnmos.Ai.Transport.{Transport, send_api_key}

abbrev pub secret_capacity : ℕ
secret_capacity = 192

abbrev pub minimum_key_length : ℕ
minimum_key_length = 8

abbrev pub visible_mask_length : ℕ
visible_mask_length = 24

-- `enum hnm_ai_auth_method`
pub data AuthMethod : Type 0 where
  no_method subscription_oauth api_key : AuthMethod

-- `enum hnm_ai_session_status`
pub data SessionStatus : Type 0 where
  disconnected entering_api_key waiting_device_login subscription_unsupported : SessionStatus
  waiting_provider invalid_key : SessionStatus

-- The static variables.
pub record Session : Type 0 where
  pub secret : List ℕ
  pub secret_index : ℕ
  pub method : AuthMethod
  pub status : SessionStatus

abbrev pub is_entering : SessionStatus → Bool
is_entering entering_api_key = true
is_entering _ = false

-- The loop of `hnm_ai_session_wipe_secret` with `n` bytes to go, from index `i` on.
unfoldable pub wipe_from : ℕ → ℕ → List ℕ → List ℕ
wipe_from zero i secret = secret
wipe_from (suc n) i secret = wipe_from n (i + 1) (set secret i 0)

unfoldable pub wipe_secret : Session → Session
wipe_secret s = record s { secret = wipe_from secret_capacity 0 s.secret; secret_index = 0 }

unfoldable pub init : Session → Session
init s = wipe_secret (record s { method = no_method; status = disconnected })

unfoldable pub begin_subscription_login : Session → Session
begin_subscription_login s = record (wipe_secret s) {
  method = subscription_oauth;
  status = subscription_unsupported;
}

unfoldable pub begin_api_key : Session → Session
begin_api_key s = record (wipe_secret s) { method = api_key; status = entering_api_key }

-- A character is the byte of a signed `char`: those from 128 on are negative.
unfoldable pub capture_character : ℕ → Session → Bool × Session
capture_character character s =
    if not (is_entering s.status)
      || ltb character 33
      || ltb 126 character
      || leb secret_capacity (s.secret_index + 1)
    then (false, s)
    else (
      true,
      record s {
        secret = set (set s.secret s.secret_index character) (s.secret_index + 1) 0;
        secret_index = s.secret_index + 1;
      },
    )

unfoldable pub backspace : Session → Session
backspace s = if not (is_entering s.status) || (s.secret_index == 0) then s else record s {
  secret = set s.secret (s.secret_index - 1) 0;
  secret_index = s.secret_index - 1;
}

abbrev pub wiped_as : SessionStatus → Session → Session
wiped_as status s = record (wipe_secret s) { status = status }

-- The answers of the line's status are those of `send_api_key`.
unfoldable pub submit_api_key : (ℕ → Bool) → Session × Transport → Session × Transport
submit_api_key can_write (s, t) =
    let (sent, u) = send_api_key can_write (some (c_str s.secret)) t in
    if not (is_entering s.status)
    then (s, t)
    else (if ltb s.secret_index minimum_key_length
        then (wiped_as invalid_key s, t)
        else (if not sent then (wiped_as invalid_key s, u) else (wiped_as waiting_provider s, u)))

unfoldable pub cancel : Session → Session
cancel s = record (wipe_secret s) { method = no_method; status = disconnected }

unfoldable pub is_capturing_secret : Session → Bool
is_capturing_secret s = is_entering s.status

unfoldable pub auth_method_name : Session → String
auth_method_name s = elim s.method [
  | subscription_oauth ↦ "subscription OAuth"
  | api_key ↦ "API key"
  | no_method ↦ "none"
]

unfoldable pub status_text : Session → String
status_text s = elim s.status [
  | entering_api_key ↦ "type key, ENTER submits; secret is volatile"
  | waiting_device_login ↦ "device login staged; network runtime required"
  | subscription_unsupported ↦ "ChatGPT subscription does not authorize API usage"
  | waiting_provider ↦ "credential handed off; local buffer cleared"
  | invalid_key ↦ "key rejected and cleared"
  | disconnected ↦ "offline; local stub available"
]

-- The loop of `hnm_ai_session_masked_secret` with `n` stars to go, and the NUL behind them.
unfoldable pub mask_from : ℕ → ℕ → ℕ → List ℕ → List ℕ
mask_from zero i capacity text = set text i 0
mask_from (suc n) i capacity text =
    let rest = mask_from n (i + 1) capacity (set text i b'*') in
    if ltb (i + 1) capacity then rest else set text i 0

unfoldable pub masked_secret : ℕ → List ℕ → Session → List ℕ
masked_secret capacity text s =
    let visible_count =
      if ltb visible_mask_length s.secret_index then visible_mask_length else s.secret_index in
    if capacity == 0 then text else mask_from visible_count 0 capacity text
