-- ===== src/Ai/Bridge/Tests.antt =====
-- A request over an idle line, and one that the local provider answers.
use hnmos.Prelude.{
  ℕ, ◌≡◌, refl, true, none, some, [], ◌∷◌, ◌++◌, arith, replicate, length-replicate,
}
use hnmos.Prelude.Ring
use hnmos.Prelude.Buffer.{codes, IsText}
use hnmos.Ai.Task.{AiTask, hnlang, help, no_task, empty, input_max, output_max}
use hnmos.Ai.Task.Output
use hnmos.Ai.Transport.Hex.{IsBytes}
use hnmos.Ai.Transport.Receive.{Rx, Serial, rx_capacity, line_capacity}
use hnmos.Ai.Transport.Receive.Fifo.{waiting}
use hnmos.Ai.Transport.Receive.Answer.{response}
use hnmos.Ai.Bridge.{Bridge, submit, poll, request}
use hnmos.Ai.Bridge.Exchange.{IsIdle, Exchanged, exchange_lem}
use hnmos.Ai.Bridge.Requests.{Served, request_lem}

abbrev quiet : Rx
quiet = record { chars = replicate rx_capacity 0; head = 4090; tail = 4090; dropped = 0 }

quiet_idle : waiting quiet ≡ []
unfolding Ring.window
quiet_idle = refl

abbrev line : Serial
line = record {
  sender = record { ready = true; port = record { reads = 0; written = [] } };
  rx = quiet;
  line = record { chars = replicate line_capacity 0; length = 0; decoded = replicate output_max 0 };
}

line-IsIdle : IsIdle line
line-IsIdle = record {
  ready = refl;
  ring = record {
    slots = length-replicate {A = ℕ} rx_capacity 0;
    head_in = omega arith;
    tail_in = omega arith;
  };
  count = omega arith;
  nothing_waits = quiet_idle;
  line_begins = refl;
  line_size = length-replicate {A = ℕ} line_capacity 0;
  decoded_size = length-replicate {A = ℕ} output_max 0;
}

abbrev unused : AiTask
unused = record {
  task_id = 0;
  task_type = no_task;
  input = replicate input_max 0;
  language_profile = none;
  context_flags = 0;
  status = empty;
  output = replicate output_max 0;
}

unused-IsValid : Output.IsValid unused
unused-IsValid = record {
  input_size = length-replicate {A = ℕ} input_max 0;
  output_size = length-replicate {A = ℕ} output_max 0;
}

abbrev started : Bridge
started = record {
  last_provider = none;
  last_task = unused;
  next_task_id = 1;
  ready = true;
  line = line;
}

hi-IsText : IsText (codes "hi")
hi-IsText = ((λ e. absurd (omega arith)), ((λ e. absurd (omega arith)), tt))

hi-IsBytes : IsBytes (codes "hi")
hi-IsBytes = (omega arith, (omega arith, tt))

exchange_example :
    Exchanged b'S' (codes "hi") started (submit (λ r. true) hnlang (some (codes "hi")) 16 started) (
      poll
        (response 1 b'S' (codes "hi") ++ b'\n' ∷ [])
        (submit (λ r. true) hnlang (some (codes "hi")) 16 started).1)
exchange_example =
    exchange_lem (λ r. true) b'h' (codes "i") 16 b'S' b'h' (codes "i") started refl line-IsIdle
      unused-IsValid (omega arith) hi-IsText
      ((λ e. absurd (omega arith)), (λ e. absurd (omega arith))) hi-IsBytes hi-IsText (omega arith)

request_example :
    Served help started (request (λ r. true) [] help (codes "ai help") 1 (codes "failed") started)
request_example =
    request_lem (λ r. true) [] help (codes "ai help") 1 (codes "failed") started refl refl
      unused-IsValid
