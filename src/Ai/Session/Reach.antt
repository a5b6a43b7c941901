-- ===== src/Ai/Session/Reach.antt =====
-- The sessions that the operations reach, in any order, each with the key that was typed.
use hnmos.Prelude.{ℕ, ◌≡◌, ap, Bool, List, [], length, arith}
use hnmos.Ai.Transport.{Transport}
use hnmos.Ai.Session.{
  Session, secret_capacity, init, begin_subscription_login, begin_api_key, capture_character,
  backspace, submit_api_key, cancel,
}
use hnmos.Ai.Session.Secret.{
  Holds, typed, all_but_last, length-padded, wipes_lem, capture_character_lem, backspace_lem,
}
use hnmos.Ai.Session.Submit.{submit_api_key-wipes}

-- A session and the key that is being typed: each operation as it is meant, on the key.
pub data Reached (can_write : ℕ → Bool) : List ℕ → Session → Type 0 where
  starts : (s : Session) → length s.secret ≡ secret_capacity → Reached can_write [] (init s)
  begins_login :
      (key : List ℕ) (s : Session)
      → Reached can_write key s
      → Reached can_write [] (begin_subscription_login s)
  begins_key :
      (key : List ℕ) (s : Session)
      → Reached can_write key s
      → Reached can_write [] (begin_api_key s)
  types :
      (key : List ℕ) (s : Session) (c : ℕ)
      → Reached can_write key s
      → Reached can_write (typed key s.status c) (capture_character c s).1
  erases :
      (key : List ℕ) (s : Session)
      → Reached can_write key s
      → Reached can_write (all_but_last key) (backspace s)
  submits :
      (key : List ℕ) (s : Session) (t : Transport)
      → Reached can_write key s
      → Reached can_write [] (submit_api_key can_write (s, t)).0
  cancels : (key : List ℕ) (s : Session) → Reached can_write key s → Reached can_write [] (cancel s)

-- The buffer keeps its 192 bytes.
secret_room : (key : List ℕ) (s : Session) → Holds key s → length s.secret ≡ secret_capacity
secret_room key s h = omega (arith, ap length h.buffer, length-padded key h.fits)

-- After any operations in any order the buffer holds exactly the key as it was typed so far, with
-- the NUL and zeros behind it: printable characters are added at the end up to 191, a backspace
-- takes the last one off, and a start, a new login, a submission and a cancellation leave nothing
-- of it; nothing is held unless a key is being typed.
pub Reached-Holds :
    (can_write : ℕ → Bool) (key : List ℕ) (s : Session) → Reached can_write key s → Holds key s
Reached-Holds w key s (starts s0 e) = (wipes_lem s0 e).0
Reached-Holds w key s (begins_login k s0 r) =
    (wipes_lem s0 (secret_room k s0 (Reached-Holds w k s0 r))).1
Reached-Holds w key s (begins_key k s0 r) =
    (wipes_lem s0 (secret_room k s0 (Reached-Holds w k s0 r))).2
Reached-Holds w key s (types k s0 c r) = (capture_character_lem c k s0 (Reached-Holds w k s0 r)).1
Reached-Holds w key s (erases k s0 r) = backspace_lem k s0 (Reached-Holds w k s0 r)
Reached-Holds w key s (submits k s0 t r) = submit_api_key-wipes w k s0 t (Reached-Holds w k s0 r)
Reached-Holds w key s (cancels k s0 r) =
    (wipes_lem s0 (secret_room k s0 (Reached-Holds w k s0 r))).3
