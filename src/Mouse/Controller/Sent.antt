-- ===== src/Mouse/Controller/Sent.antt =====
-- What a chain of operations on the controller has written when it ends or breaks off.
use hnmos.Prelude.{
  ℕ, ◌≡◌, refl, sym, ap, ◌∙◌, Bool, true, List, [], ◌++◌, Bool-cases, inl, inr, arith,
}
use mathlib.Core.List.{append_assoc, append-nil}
use hnmos.Mouse.Controller.{Ports, and_then}

-- Of the bytes `bs` a part has been written, and all of them if the result is true.
pub record Sent (bs : List (ℕ × ℕ)) (p : Ports) (r : Bool × Ports) : Type 0 where
  pub done : List (ℕ × ℕ)
  pub missing : List (ℕ × ℕ)
  pub parts : bs ≡ done ++ missing
  pub written : r.1.written ≡ p.written ++ done
  pub whole : r.0 ≡ true → missing ≡ []

pub nothing-Sent : (p : Ports) (r : Bool × Ports) → r.1.written ≡ p.written → Sent [] p r
nothing-Sent p r e = record {
  done = [];
  missing = [];
  parts = refl;
  written = e ∙ sym (append-nil p.written);
  whole = λ e. refl;
}

-- What two operations write, one after the other.
pub Sent-and_then :
    (f g : Ports → Bool × Ports) (bs cs : List (ℕ × ℕ)) (p : Ports)
    → Sent bs p (f p)
    → Sent cs (f p).1 (g (f p).1)
    → Sent (bs ++ cs) p (and_then f g p)
Sent-and_then f g bs cs p s u = elim (Bool-cases (f p).0) [
  | inl ok ↦
      let all : bs ≡ s.done = s.parts ∙ ap (λ l. s.done ++ l) (s.whole ok) ∙ append-nil s.done in
      rw (ok, and_then)
        (record {
          done = bs ++ u.done;
          missing = u.missing;
          parts = ap (λ l. bs ++ l) u.parts ∙ sym (append_assoc bs u.done u.missing);
          written =
              u.written
              ∙ ap (λ l. l ++ u.done) (s.written ∙ ap (λ l. p.written ++ l) (sym all))
              ∙ append_assoc p.written bs u.done;
          whole = u.whole;
        })
  | inr failed ↦
      rw (failed, and_then)
        (record {
          done = s.done;
          missing = s.missing ++ cs;
          parts = ap (λ l. l ++ cs) s.parts ∙ append_assoc s.done s.missing cs;
          written = s.written;
          whole = λ e. ground (arith, e);
        })
]

-- What is sent does not depend on how often a port was read before.
pub Sent-from :
    (bs : List (ℕ × ℕ)) (p q : Ports) (r : Bool × Ports)
    → p.written ≡ q.written
    → Sent bs p r
    → Sent bs q r
Sent-from bs p q r e s = record {
  done = s.done;
  missing = s.missing;
  parts = s.parts;
  written = s.written ∙ ap (λ l. l ++ s.done) e;
  whole = s.whole;
}
