-- ===== src/Ai/Transport/Receive.antt =====
-- The receiving half of the serial line, kernel01/kernel/ai/ai_serial_transport.c: the ring of
-- received characters, the assembly of lines and the answers that they hold. The characters that the
-- device has ready are an argument of the operations that read it.
pub mod Fifo
pub mod Lines
pub mod Plain
pub mod Answer
use hnmos.Prelude.{
  ℕ, zero, suc, ◌+◌, ◌-◌, ◌%◌, Bool, true, false, not, ◌&&◌, ◌||◌, Option, none, some, List, [],
  ◌∷◌, leb, ltb, ◌==◌, if◌then◌else◌, get_or, set, take, drop, add32,
}
use hnmos.Prelude.Buffer.{codes, c_str}
use hnmos.Ai.Task.{AiTask, TaskStatus, finished, failed, output_max, set_output}
use hnmos.Ai.Transport.{Transport, parse_u32, decode_text}

abbrev pub rx_capacity : ℕ
rx_capacity = 4096

abbrev pub line_capacity : ℕ
line_capacity = 2304

-- The ring of received characters.
pub record Rx : Type 0 where
  pub chars : List ℕ
  pub head : ℕ
  pub tail : ℕ
  pub dropped : ℕ

-- The line that is being put together, with the buffer of `hnm_ai_serial_parse_response`.
pub record Line : Type 0 where
  pub chars : List ℕ
  pub length : ℕ
  pub decoded : List ℕ

-- `hnm_ai_serial_push_rx`
unfoldable pub push_rx : ℕ → Rx → Rx
push_rx character r =
    let next_head = add32 r.head 1 % rx_capacity in
    if next_head == r.tail
    then record r { dropped = add32 r.dropped 1 }
    else record r { chars = set r.chars r.head character; head = next_head }

-- `hnm_ai_serial_pop_rx`: the character, if there is one.
unfoldable pub pop_rx : Rx → Option ℕ × Rx
pop_rx r =
    if r.tail == r.head
    then (none, r)
    else (some (get_or r.chars r.tail 0), record r { tail = add32 r.tail 1 % rx_capacity })

-- `hnm_ai_serial_capture_rx`, with the characters that the device has ready.
unfoldable pub capture_rx : List ℕ → Rx → Rx
capture_rx [] r = r
capture_rx (c ∷ cs) r = capture_rx cs (push_rx c r)

-- The loop of `hnm_ai_serial_prefix_matches`.
unfoldable pub prefix_matches : List ℕ → List ℕ → Bool
prefix_matches line [] = true
prefix_matches [] (p ∷ ps) = false
prefix_matches (c ∷ cs) (p ∷ ps) = (c == p) && prefix_matches cs ps

abbrev pub char_at : List ℕ → ℕ → ℕ
char_at chars i = get_or chars i 0

-- The tests on the fields in front of the text, `task_id != task->task_id` included.
unfoldable pub is_answer_to : AiTask → List ℕ → Bool
is_answer_to task chars =
    prefix_matches chars (codes "HNAI1|RES|") && elim (parse_u32 (drop 10 chars)) [
      | none ↦ false
      | some task_id ↦
          (char_at chars 18 == b'|') && (char_at chars 20 == b'|') && (task_id == task.task_id)
    ]

abbrev pub answer_status : List ℕ → TaskStatus
answer_status chars = if char_at chars 19 == b'S' then finished else failed

abbrev pub with_answer : TaskStatus → Option AiTask → Option AiTask
with_answer status none = none
with_answer status (some task) = some (record task { status = status })

-- `hnm_ai_serial_parse_response`
unfoldable pub parse_response : Line → Option AiTask → Bool × Line × Option AiTask
parse_response l none = (false, l, none)
parse_response l (some task) =
    let (complete, decoded) = decode_text (c_str (drop 21 l.chars)) l.decoded output_max in
    let read_out = record l { decoded = decoded } in
    if not (is_answer_to task l.chars)
    then (false, l, some task)
    else (if not complete then (false, read_out, some task) else (
      true,
      read_out,
      with_answer (answer_status l.chars) (set_output (some (c_str decoded)) (some task)),
    ))

-- One round of the loop of `hnm_ai_serial_transport_poll`, for a character that was taken out.
unfoldable pub take_char : ℕ → Line → Option AiTask → Bool × Line × Option AiTask
take_char character l task =
    if character == b'\r'
    then (false, l, task)
    else (if character == b'\n'
        then parse_response (record l { chars = set l.chars l.length 0; length = 0 }) task
        else (if ltb (l.length + 1) line_capacity
            then (
              false,
              record l { chars = set l.chars l.length character; length = l.length + 1 },
              task,
            )
            else (false, record l { length = 0 }, task)))

-- The loop of `hnm_ai_serial_transport_poll`, at most `fuel` rounds: one for each character of the ring.
unfoldable pub poll_from : ℕ → Rx → Line → Option AiTask → Bool × Rx × Line × Option AiTask
poll_from zero r l task = (false, r, l, task)
poll_from (suc fuel) r l task =
    let (popped, r') = pop_rx r in
    elim popped [
      | none ↦ (false, r', l, task)
      | some c ↦
          let (answered, l', task') = take_char c l task in
          elim answered [ true ↦ (true, r', l', task') | false ↦ poll_from fuel r' l' task' ]
    ]

-- The static variables of the transport.
pub record Serial : Type 0 where
  pub sender : Transport
  pub rx : Rx
  pub line : Line

unfoldable pub poll : List ℕ → Option AiTask → Serial → Bool × Serial × Option AiTask
poll arrived none s = (false, s, none)
poll arrived (some task) s =
    let (answered, r, l, task') =
      poll_from rx_capacity (capture_rx arrived s.rx) s.line (some task) in
    if not s.sender.ready
    then (false, s, some task)
    else (answered, record s { rx = r; line = l }, task')

-- `hnm_ai_serial_irq_handler`, without the end-of-interrupt command.
unfoldable pub irq_handler : List ℕ → Serial → Serial
irq_handler arrived s = record s { rx = capture_rx arrived s.rx }

unfoldable pub dropped_bytes : Serial → ℕ
dropped_bytes s = s.rx.dropped

-- `hnm_ai_serial_transport_init`, without the set-up of the port.
unfoldable pub init : Serial → Serial
init s = record {
  sender = record (s.sender) { ready = true };
  rx = record (s.rx) { head = 0; tail = 0; dropped = 0 };
  line = record (s.line) { length = 0 };
}
