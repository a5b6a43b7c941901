-- ===== src/Ai/Tests.antt =====
-- A policy decision, a session with a typed key, a frame, and a task of the local provider.
use hnmos.Prelude.{
  ℕ, zero, suc, ◌+◌, ◌≡◌, ◌⊎◌, refl, ap, ◌∙◌, inl, inr, Bool, true, false, List, [], arith,
  replicate,
}
use hnmos.Prelude.Buffer.{codes, copy_text}
use hnmos.Ai.Transport.{Transport, hex_text, decode_text}
use hnmos.Ai.Transport.Hex.{IsBytes, decode_text-hex_text}
use hnmos.Ai.Transport.Frame.{Steady}
use hnmos.Ai.Session.{
  Session, secret_capacity, disconnected, no_method, entering_api_key, is_entering, init,
  begin_subscription_login, begin_api_key, cancel, capture_character, backspace, submit_api_key,
}
use hnmos.Ai.Session.Secret.{Holds, padded}
use hnmos.Ai.Session.Reach.{Reached, starts, types, erases, begins_key, Reached-Holds}
use hnmos.Ai.Session.Submit.{Submits, submit_api_key_lem}

-- A line that is busy at every other reading of its status.
abbrev slow : ℕ → Bool
slow zero = false
slow (suc zero) = true
slow (suc (suc n)) = slow n

slow-next : (r : ℕ) → (slow r ≡ true) ⊎ (slow (r + 1) ≡ true)
slow-next zero = inr refl
slow-next (suc zero) = inl refl
slow-next (suc (suc r)) = elim (slow-next r) [
  | inl e ↦ inl e
  | inr e ↦ inr (ap slow {x = suc (suc r) + 1} {y = suc (suc (r + 1))} (omega arith) ∙ e)
]

slow-Steady : Steady slow
slow-Steady r = elim (slow-next r) [
  | inl e ↦ (0, omega arith, ap slow {x = r + 0} {y = r} (omega arith) ∙ e)
  | inr e ↦ (1, omega arith, e)
]

abbrev on : Transport
on = record { ready = true; port = record { reads = 0; written = [] } }

short-IsBytes : IsBytes (codes "Hi")
short-IsBytes = (omega arith, (omega arith, tt))

decode_text_example :
    decode_text (hex_text (codes "Hi")) (replicate 8 0) 8
    ≡ (true, copy_text (replicate 8 0) 8 (codes "Hi"))
decode_text_example =
    decode_text-hex_text (codes "Hi") (replicate 8 0) 8 (omega arith) short-IsBytes

-- The session while the key `sk-12345` stands in the buffer.
abbrev key : List ℕ
key = codes "sk-12345"

abbrev typing : Session
typing = record {
  secret = padded key;
  secret_index = 8;
  method = no_method;
  status = entering_api_key;
}

typing-Holds : Holds key typing
typing-Holds = record {
  buffer = refl;
  index = refl;
  fits = omega arith;
  printable = (
    omega arith,
    omega arith,
    (
      omega arith,
      omega arith,
      (
        omega arith,
        omega arith,
        (
          omega arith,
          omega arith,
          (
            omega arith,
            omega arith,
            (omega arith, omega arith, (omega arith, omega arith, (omega arith, omega arith, tt))),
          ),
        ),
      ),
    ),
  );
  secret_only_typing = λ (e : is_entering typing.status ≡ false). ground (arith, e);
}

submit_api_key_example : Submits key on (submit_api_key slow (typing, on))
submit_api_key_example = submit_api_key_lem slow key typing on typing-Holds refl refl slow-Steady

abbrev empty_session : Session
empty_session = record {
  secret = replicate secret_capacity 7;
  secret_index = 5;
  method = no_method;
  status = disconnected;
}

-- One character is typed, taken back and typed again.
session-Reached :
    Reached slow
      (codes "k")
      (capture_character b'k'
        (backspace (capture_character b'k' (begin_api_key (init empty_session))).1)).1
unfolding init begin_api_key capture_character backspace hnmos.Ai.Session.wipe_secret
session-Reached =
    types [] _ b'k'
      (erases (codes "k") _ (types [] _ b'k' (begins_key [] _ (starts empty_session refl))))

Reached-Holds_example :
    Holds
      (codes "k")
      (capture_character b'k'
        (backspace (capture_character b'k' (begin_api_key (init empty_session))).1)).1
Reached-Holds_example = Reached-Holds slow (codes "k") _ session-Reached
