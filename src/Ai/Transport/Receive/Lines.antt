-- ===== src/Ai/Transport/Receive/Lines.antt =====
-- The polling loop takes the characters of the ring one by one, as a run over the list of them does.
use hnmos.Prelude.{
  ℕ, zero, suc, ◌<◌, ◌≡◌, refl, ap, ◌∙◌, Bool, true, false, Option, List, [], ◌∷◌, arith, length,
  Bool-cases, inl, inr,
}
use mathlib.Core.Path.{subst, subst⁻¹}
use hnmos.Ai.Task.{AiTask}
use hnmos.Ai.Transport.Receive.{Rx, Line, pop_rx, take_char, poll_from}
use hnmos.Ai.Transport.Receive.Fifo.{IsValid, waiting, Popped, pop_rx_lem}

-- The characters up to the one that ends a line with an answer: whether there was one, the
-- characters behind it, the line and the task.
unfoldable pub run : List ℕ → Line → Option AiTask → Bool × List ℕ × Line × Option AiTask
run [] l task = (false, [], l, task)
run (c ∷ cs) l task =
    let (answered, l', task') = take_char c l task in
    elim answered [ true ↦ (true, cs, l', task') | false ↦ run cs l' task' ]

-- What the loop leaves is what the run leaves, with the characters behind still waiting.
abbrev pub Runs : Bool × Rx × Line × Option AiTask → Bool × List ℕ × Line × Option AiTask → Type 0
Runs (b, r, l, t) (b', cs, l', t') = (b ≡ b') × (waiting r ≡ cs) × (l ≡ l') × (t ≡ t') × IsValid r

pub poll_from-Runs :
    (fuel : ℕ) (cs : List ℕ) (r : Rx) (l : Line) (task : Option AiTask)
    → IsValid r
    → waiting r ≡ cs
    → length cs < fuel
    → Runs (poll_from fuel r l task) (run cs l task)
unfolding poll_from run
poll_from-Runs zero cs r l task v e h = absurd (omega arith)
poll_from-Runs (suc fuel) [] r l task v e h =
    let p = subst (Popped r (pop_rx r)) e (pop_rx_lem r v) in
    rw (p.0, poll_from) (refl, ap waiting p.1 ∙ e, refl, refl, subst⁻¹ IsValid p.1 v)
poll_from-Runs (suc fuel) (c ∷ cs) r l task v e h =
    let p = subst (Popped r (pop_rx r)) e (pop_rx_lem r v) in
    elim (Bool-cases (take_char c l task).0) [
      | inl done ↦ rw (p.0, done, poll_from, run) (refl, p.1, refl, refl, p.2)
      | inr more ↦
          rw (p.0, more, poll_from, run)
            (poll_from-Runs fuel cs (pop_rx r).1 (take_char c l task).1 (take_char c l task).2 p.2
              p.1 (omega arith))
    ]
