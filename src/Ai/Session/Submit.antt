-- ===== src/Ai/Session/Submit.antt =====
-- Handing the key over: `hnm_ai_session_submit_api_key`.
use hnmos.Prelude.{
  ℕ, ◌-◌, ◌<◌, ◌≡◌, refl, sym, ap, ◌∙◌, Bool, true, false, not, some, List, [], ◌∷◌, ◌++◌, arith,
  ltb, if◌then◌else◌, length, Bool-cases, inl, inr,
}
use mathlib.Core.List.{append-nil}
use mathlib.Core.Path.{subst, subst⁻¹}
use hnmos.Prelude.Buffer.{c_str, IsText, c_str-append}
use hnmos.Ai.Transport.{Transport, send_api_key}
use hnmos.Ai.Transport.Frame.{Steady, key_frame, Sends, send_api_key_lem}
use hnmos.Ai.Session.{
  Session, SessionStatus, is_entering, invalid_key, waiting_provider, secret_capacity,
  minimum_key_length, wipe_secret, wiped_as, submit_api_key,
}
use hnmos.Ai.Session.Secret.{
  Holds, IsPrintable, zeros, padded, wiped-Holds, wiped_secret, length-padded, padded-split,
}

wiped_as-Holds :
    (key : List ℕ) (status : SessionStatus) (s : Session)
    → Holds key s
    → Holds [] (wiped_as status s)
unfolding wipe_secret
wiped_as-Holds key status s h =
    wiped-Holds _
      (wiped_secret s.secret (ap {B = ℕ} length h.buffer ∙ length-padded key h.fits), refl)

-- The result of a submission that was sent or refused as `sent` tells.
abbrev submitted : Bool → Session → Transport → Session × Transport
submitted sent s u =
    if not sent then (wiped_as invalid_key s, u) else (wiped_as waiting_provider s, u)

-- Where a submission ends: no key is being typed, or it is too short, or the line answers.
submit_api_key-cases :
    (can_write : ℕ → Bool) (s : Session) (t : Transport)
    → submit_api_key can_write (s, t) ≡ (
        if not (is_entering s.status)
        then (s, t)
        else (if ltb s.secret_index minimum_key_length
            then (wiped_as invalid_key s, t)
            else submitted
                (send_api_key can_write (some (c_str s.secret)) t).0
                s
                (send_api_key can_write (some (c_str s.secret)) t).1))
unfolding submit_api_key
submit_api_key-cases can_write s t = refl

submitted-Holds :
    (sent : Bool) (key : List ℕ) (s : Session) (u : Transport)
    → Holds key s
    → Holds [] (submitted sent s u).0
submitted-Holds true key s u h = wiped_as-Holds key waiting_provider s h
submitted-Holds false key s u h = wiped_as-Holds key invalid_key s h

-- Whatever the line does, after a submission nothing of the secret is left in the buffer.
pub submit_api_key-wipes :
    (can_write : ℕ → Bool) (key : List ℕ) (s : Session) (t : Transport)
    → Holds key s
    → Holds [] (submit_api_key can_write (s, t)).0
submit_api_key-wipes can_write key s t h =
    subst⁻¹ (λ (r : Session × Transport). Holds [] r.0) (submit_api_key-cases can_write s t)
      (elim (Bool-cases (is_entering s.status)) [
        | inl e ↦ elim (Bool-cases (ltb s.secret_index minimum_key_length)) [
          | inl short ↦ rw (e, short) (wiped_as-Holds key invalid_key s h)
          | inr long ↦ rw (e, long) (submitted-Holds _ key s _ h)
        ]
        | inr e ↦ rw e (subst (λ l. Holds l s) (h.secret_only_typing e) h)
      ])

IsPrintable-IsText : (key : List ℕ) → IsPrintable key → IsText key
IsPrintable-IsText [] p = tt
IsPrintable-IsText (k ∷ key) p = (omega (arith, p.0), IsPrintable-IsText key p.2)

c_str-padded :
    (key : List ℕ) → length key < secret_capacity → IsPrintable key → c_str (padded key) ≡ key
c_str-padded key h p =
    ap c_str (padded-split key h)
    ∙ c_str-append key (zeros (191 - length key)) (IsPrintable-IsText key p)

-- What a submission of a key is to do: refuse one of fewer than eight characters, with nothing
-- sent, and send the frame of another.
abbrev pub Submits : List ℕ → Transport → Session × Transport → Type 0
Submits key t (s, u) =
    (s.status ≡ (if ltb (length key) minimum_key_length then invalid_key else waiting_provider))
    × (u.port.written
        ≡ t.port.written ++ (if ltb (length key) minimum_key_length then [] else key_frame key))

-- A key that is long enough is sent, and the session waits.
abbrev Waits : List ℕ → Transport → Session × Transport → Type 0
Waits key t (s, u) =
    (s.status ≡ waiting_provider) × (u.port.written ≡ t.port.written ++ key_frame key)

sent-Waits :
    (key : List ℕ) (s : Session) (t : Transport) (r : Bool × Transport)
    → Sends key t r
    → Waits key t (submitted r.0 s r.1)
unfolding wipe_secret
sent-Waits key s t r (sent, written, ready) = rw sent (refl, written)

send-Sends :
    (can_write : ℕ → Bool) (key : List ℕ) (t : Transport)
    → ltb (length key) minimum_key_length ≡ false
    → t.ready ≡ true
    → Steady can_write
    → Sends key t (send_api_key can_write (some key) t)
send-Sends can_write [] t e on steady = absurd (ground (arith, e))
send-Sends can_write (k ∷ key) t e on steady = send_api_key_lem can_write k key t on steady

-- While a key is being typed, over a line that is ready and never stays busy for 100000 readings, a
-- submission refuses a key of fewer than eight characters with nothing sent, and for any other key
-- writes exactly its frame and waits for the provider.
pub submit_api_key_lem :
    (can_write : ℕ → Bool) (key : List ℕ) (s : Session) (t : Transport)
    → Holds key s
    → is_entering s.status ≡ true
    → t.ready ≡ true
    → Steady can_write
    → Submits key t (submit_api_key can_write (s, t))
submit_api_key_lem can_write key s t h typing on steady =
    subst⁻¹ (Submits key t) (submit_api_key-cases can_write s t) (
      rw (typing, ap (λ (i : ℕ). ltb i minimum_key_length) h.index)
        (elim (Bool-cases (ltb (length key) minimum_key_length)) [
          | inl short ↦ rw short (refl, sym (append-nil t.port.written))
          | inr long ↦ rw long (
              subst⁻¹
                (λ l. Waits key t (
                  submitted (send_api_key can_write (some l) t).0 s
                    (send_api_key can_write (some l) t).1))
                (ap c_str h.buffer ∙ c_str-padded key h.fits h.printable)
                (sent-Waits key s t (send_api_key can_write (some key) t)
                  (send-Sends can_write key t long on steady)))
        ]))
