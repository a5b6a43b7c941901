-- ===== src/Ai/Transport/Frame.antt =====
-- What the operations that send put on the line.
use hnmos.Prelude.{
  ℕ, zero, suc, ◌+◌, ◌<◌, ◌≡◌, refl, sym, ap, ◌∙◌, Bool, true, some, List, [], ◌∷◌, ◌++◌, arith,
  Bool-cases, inl, inr,
}
use mathlib.Core.List.{append_assoc, append-nil}
use mathlib.Core.Path.{subst⁻¹}
use hnmos.Prelude.Buffer.{codes}
use hnmos.Ai.Transport.{Port, Transport, attempts, write_char, write_text, send_api_key, hex_text}

-- The line never stays busy for 100000 readings of its status.
abbrev pub Steady : (ℕ → Bool) → Type 0
Steady can_write = (r : ℕ) → (k : ℕ) × (k < 100000) × (can_write (r + k) ≡ true)

abbrev pub key_frame : List ℕ → List ℕ
key_frame key = codes "HNAI1|KEY|" ++ (hex_text key ++ b'\n' ∷ [])

abbrev pub Sends : List ℕ → Transport → Bool × Transport → Type 0
Sends key t r =
    (r.0 ≡ true) × (r.1.port.written ≡ t.port.written ++ key_frame key) × (r.1.ready ≡ t.ready)

module _ (can_write : ℕ → Bool) where
  attempts_lem :
      (n k c : ℕ) (p : Port)
      → k < n
      → can_write (p.reads + k) ≡ true
      → (attempts can_write n c p).written ≡ p.written ++ c ∷ []
  unfolding attempts
  attempts_lem zero k c p h e = absurd (omega arith)
  attempts_lem (suc n) zero c p h e =
      let free : can_write p.reads ≡ true = ap can_write (omega arith) ∙ e in
      rw (free, attempts) refl
  attempts_lem (suc n) (suc k) c p h e =
      let later : can_write (p.reads + 1 + k) ≡ true = ap can_write (omega arith) ∙ e in
      let rest = attempts_lem n k c (record p { reads = p.reads + 1 }) (omega arith) later in
      elim (Bool-cases (can_write p.reads)) [
        | inl free ↦ rw (free, attempts) refl
        | inr busy ↦ rw (busy, attempts) rest
      ]

  write_char_lem :
      (c : ℕ) (p : Port)
      → Steady can_write
      → (write_char can_write c p).written ≡ p.written ++ c ∷ []
  unfolding write_char
  write_char_lem c p s = attempts_lem 100000 (s p.reads).0 c p (s p.reads).1 (s p.reads).2

  write_text_lem :
      (text : List ℕ) (p : Port)
      → Steady can_write
      → (write_text can_write text p).written ≡ p.written ++ text
  unfolding write_text
  write_text_lem [] p s = sym (append-nil p.written)
  write_text_lem (c ∷ cs) p s =
      write_text_lem cs (write_char can_write c p) s
      ∙ ap (λ l. l ++ cs) (write_char_lem c p s)
      ∙ append_assoc p.written (c ∷ []) cs

  abbrev key_port : List ℕ → Port → Port
  key_port key p =
      write_char can_write b'\n'
        (write_text can_write (hex_text key) (write_text can_write (codes "HNAI1|KEY|") p))

  key_port_lem :
      (key : List ℕ) (p : Port)
      → Steady can_write
      → (key_port key p).written ≡ p.written ++ key_frame key
  key_port_lem key p s =
      let head = write_text can_write (codes "HNAI1|KEY|") p in
      let body = write_text can_write (hex_text key) head in
      write_char_lem b'\n' body s
      ∙ ap (λ l. l ++ b'\n' ∷ [])
          (write_text_lem (hex_text key) head s
            ∙ ap (λ l. l ++ hex_text key) (write_text_lem (codes "HNAI1|KEY|") p s))
      ∙ ap (λ l. l ++ b'\n' ∷ []) (append_assoc p.written (codes "HNAI1|KEY|") (hex_text key))
      ∙ append_assoc p.written (codes "HNAI1|KEY|" ++ hex_text key) (b'\n' ∷ [])
      ∙ ap (λ l. p.written ++ l) (append_assoc (codes "HNAI1|KEY|") (hex_text key) (b'\n' ∷ []))

  pub send_api_key-sends :
      (c : ℕ) (cs : List ℕ) (t : Transport)
      → t.ready ≡ true
      → send_api_key can_write (some (c ∷ cs)) t
        ≡ (true, record t { port = key_port (c ∷ cs) t.port })
  unfolding send_api_key
  send_api_key-sends c cs t on = simp on refl

  -- A key that is not empty is sent by a sender that is ready: over a line that never stays busy for
  -- 100000 readings, the bytes written are exactly the frame of the key.
  pub send_api_key_lem :
      (c : ℕ) (cs : List ℕ) (t : Transport)
      → t.ready ≡ true
      → Steady can_write
      → Sends (c ∷ cs) t (send_api_key can_write (some (c ∷ cs)) t)
  send_api_key_lem c cs t on s =
      subst⁻¹ (Sends (c ∷ cs) t) (send_api_key-sends c cs t on)
        (refl, key_port_lem (c ∷ cs) t.port s, refl)
