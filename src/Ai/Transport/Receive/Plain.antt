-- ===== src/Ai/Transport/Receive/Plain.antt =====
-- Characters that do not end a line are put into it.
use hnmos.Prelude.{
  ℕ, ◌+◌, ◌<◌, ◌≡◌, ◌≢◌, sym, ap, ap₂, ◌∙◌, Bool, true, false, Option, List, [], ◌∷◌, ◌++◌, arith,
  length, drop, ltb, ◌==◌, length-append,
}
use mathlib.Core.List.{append_assoc, append-nil}
use hnmos.Prelude.Buffer.{set-append}
use hnmos.Ai.Task.{AiTask}
use hnmos.Ai.Transport.Receive.{Line, line_capacity, take_char, parse_response}
use hnmos.Ai.Transport.Receive.Lines.{run}

abbrev pub line_of : List ℕ → ℕ → List ℕ → Line
line_of chars n decoded = record { chars = chars; length = n; decoded = decoded }

-- No character ends a line.
abbrev pub IsPlain : List ℕ → Type 0
IsPlain [] = Unit
IsPlain (c ∷ cs) = (c ≢ b'\r') × (c ≢ b'\n') × IsPlain cs

take_char-plain :
    (c x : ℕ) (pre stale decoded : List ℕ) (task : Option AiTask)
    → c ≢ b'\r'
    → c ≢ b'\n'
    → length pre + 1 < line_capacity
    → take_char c (line_of (pre ++ x ∷ stale) (length pre) decoded) task
      ≡ (false, line_of ((pre ++ c ∷ []) ++ stale) (length (pre ++ c ∷ [])) decoded, task)
unfolding take_char
take_char-plain c x pre stale decoded task no_return no_end h =
    let r : (c == b'\r') ≡ false = ground arith in
    let e : (c == b'\n') ≡ false = ground arith in
    let room : ltb (length pre + 1) line_capacity ≡ true = ground arith in
    rw (r, e, room)
      (ap₂ {C = Bool × Line × Option AiTask}
        (λ (l : List ℕ) (n : ℕ). (false, line_of l n decoded, task))
        (set-append pre x c stale ∙ sym (append_assoc pre (c ∷ []) stale))
        (omega (arith, length-append pre (c ∷ []))))

-- One round of the run, by what the character does.
pub run-cons :
    (c : ℕ) (cs : List ℕ) (l : Line) (task : Option AiTask) (answered : Bool) (l' : Line)
    (task' : Option AiTask)
    → take_char c l task ≡ (answered, l', task')
    → run (c ∷ cs) l task ≡ elim answered [ true ↦ (true, cs, l', task') | false ↦ run cs l' task' ]
unfolding run
run-cons c cs l task answered l' task' e =
    ap {B = Bool × List ℕ × Line × Option AiTask}
      (λ (r : Bool × Line × Option AiTask). elim r.0 [
        | true ↦ (true, cs, r.1, r.2)
        | false ↦ run cs r.1 r.2
      ])
      e

-- Characters that do not end a line are put into it, as long as it has room.
pub run-plain :
    (cs pre stale decoded rest : List ℕ) (task : Option AiTask)
    → IsPlain cs
    → length cs < length stale
    → length pre + length cs < line_capacity
    → run (cs ++ rest) (line_of (pre ++ stale) (length pre) decoded) task
      ≡ run rest (line_of ((pre ++ cs) ++ drop (length cs) stale) (length (pre ++ cs)) decoded) task
unfolding run
run-plain [] pre stale decoded rest task p s h =
    ap₂ {C = Bool × List ℕ × Line × Option AiTask}
      (λ (l : List ℕ) (n : ℕ). run rest (line_of (l ++ stale) n decoded) task)
      (sym (append-nil pre)) (ap length (sym (append-nil pre)))
run-plain (c ∷ cs) pre [] decoded rest task p s h = absurd (omega arith)
run-plain (c ∷ cs) pre (x ∷ stale) decoded rest task p s h =
    let more = length-append pre (c ∷ []) in
    run-cons c (cs ++ rest) _ task false _ task
      (take_char-plain c x pre stale decoded task p.0 p.1 (omega arith))
    ∙ run-plain cs (pre ++ c ∷ []) stale decoded rest task p.2 (omega arith) (omega (arith, more))
    ∙ ap (λ (l : List ℕ). run rest (line_of (l ++ drop (length cs) stale) (length l) decoded) task)
        (append_assoc pre (c ∷ []) cs)

-- The end of a line closes it with a NUL and reads it.
pub take_char-end :
    (pre stale decoded : List ℕ) (x : ℕ) (task : Option AiTask)
    → take_char b'\n' (line_of (pre ++ x ∷ stale) (length pre) decoded) task
      ≡ parse_response (line_of (pre ++ 0 ∷ stale) 0 decoded) task
unfolding take_char
take_char-end pre stale decoded x task =
    ap (λ (l : List ℕ). parse_response (line_of l 0 decoded) task) (set-append pre x 0 stale)
