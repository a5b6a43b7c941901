-- ===== src/Ai/Bridge/Exchange.antt =====
-- A request for HNLang goes over the serial line and its answer comes back; the other requests are
-- answered at once by the local provider.
use hnmos.Prelude.{
  ℕ, ◌+◌, ◌%◌, ◌^◌, ◌≤◌, ◌<◌, ◌≡◌, refl, sym, ap, ◌∙◌, Bool, true, false, some, List, [], ◌∷◌, ◌++◌,
  arith, length, ◌==◌, if◌then◌else◌, take, set, get_or, add32, length-set, Bool-cases, inl, inr,
}
use mathlib.Core.Path.{subst⁻¹}
use hnmos.Prelude.Buffer.{c_str, IsText}
use hnmos.Ai.Task.{
  AiTask, hnlang, pending, running, finished, failed, prepare, copy_source, input_max, output_max,
}
use hnmos.Ai.Task.Output.{IsValid, c_str-copy_source}
use hnmos.Ai.Transport.{Transport, is_empty, send, write_request}
use hnmos.Ai.Transport.Hex.{IsBytes}
use hnmos.Ai.Transport.Receive.{Serial, line_capacity}
use hnmos.Ai.Transport.Receive
use hnmos.Ai.Transport.Receive.Fifo
use hnmos.Ai.Transport.Receive.Fifo.{waiting}
use hnmos.Ai.Transport.Receive.Answer.{IsLetter, Delivered, response, poll-response}
use hnmos.Ai.Serial
use hnmos.Ai.Serial.{is_waiting}
use hnmos.Ai.Bridge.{
  Bridge, serial_line, system_contract, kept, prepared, hand_over, submit, poll_provider, poll,
  result,
}

-- The transport is started, no character waits and a line begins.
pub record IsIdle (s : Serial) : Type 0 where
  pub ready : s.sender.ready ≡ true
  pub ring : Fifo.IsValid s.rx
  pub count : s.rx.dropped < 2 ^ 32
  pub nothing_waits : waiting s.rx ≡ []
  pub line_begins : s.line.length ≡ 0
  pub line_size : length s.line.chars ≡ line_capacity
  pub decoded_size : length s.line.decoded ≡ output_max

-- A buffer that holds a text that is not empty does not begin with a NUL.
holds_text : (l s : List ℕ) (c : ℕ) → c_str l ≡ c ∷ s → (get_or l 0 0 == 0) ≡ false
unfolding c_str
holds_text [] s c e = absurd (ground (arith, ap {B = ℕ} length e))
holds_text (d ∷ ds) s c e = elim (Bool-cases (d == 0)) [
  | inl z ↦
      let nil : c_str (d ∷ ds) ≡ [] = rw (z, c_str) refl in
      absurd (ground (arith, ap {B = ℕ} length (sym nil ∙ e)))
  | inr n ↦ n
]

-- The task that is asked for, as it is sent.
asked : List ℕ → ℕ → Bridge → AiTask
asked input flags b = record (b.last_task) {
  task_id = b.next_task_id;
  task_type = hnlang;
  input = copy_source b.last_task.input input_max (some input);
  language_profile = some system_contract;
  context_flags = flags;
  status = pending;
  output = set b.last_task.output 0 0;
}

prepared-asked :
    (input : List ℕ) (flags : ℕ) (b : Bridge)
    → prepared hnlang (some input) flags b ≡ asked input flags b
unfolding prepared prepare asked
prepared-asked input flags b = refl

send-ready :
    (can_write : ℕ → Bool) (t : AiTask) (s : Transport)
    → s.ready ≡ true
    → is_empty can_write t.input ≡ false
    → send can_write (some t) s ≡ (true, record s { port = write_request can_write t s.port })
unfolding send
send-ready can_write t s r e = simp (r, e) refl

is_empty_lem :
    (can_write : ℕ → Bool) (l : List ℕ) → (get_or l 0 0 == 0) ≡ false → is_empty can_write l ≡ false
is_empty_lem can_write [] e = ground (arith, e)
is_empty_lem can_write (c ∷ cs) e = e

-- The transport with the frame of a task behind what was written.
sent_line : (ℕ → Bool) → AiTask → Serial → Serial
sent_line can_write t s = record s {
  sender = record (s.sender) { port = write_request can_write t s.sender.port };
}

submit_task-sent :
    (can_write : ℕ → Bool) (input : List ℕ) (flags : ℕ) (b : Bridge)
    → b.line.sender.ready ≡ true
    → is_empty can_write (asked input flags b).input ≡ false
    → Serial.submit_task can_write (some (asked input flags b)) b.line ≡ (
      true,
      some (record (asked input flags b) { status = running }),
      sent_line can_write (asked input flags b) b.line,
    )
unfolding Serial.submit_task sent_line asked
submit_task-sent can_write input flags b r e =
    simp (send-ready can_write (asked input flags b) b.line.sender r e) refl

-- The bridge that waits for an answer.
waits : (ℕ → Bool) → List ℕ → ℕ → Bridge → Bridge
waits can_write input flags b = record {
  last_provider = some serial_line;
  last_task = record (asked input flags b) { status = running };
  next_task_id = add32 b.next_task_id 1;
  ready = b.ready;
  line = sent_line can_write (asked input flags b) b.line;
}

submit-waits :
    (can_write : ℕ → Bool) (input : List ℕ) (flags : ℕ) (b : Bridge)
    → b.ready ≡ true
    → b.line.sender.ready ≡ true
    → is_empty can_write (asked input flags b).input ≡ false
    → submit can_write hnlang (some input) flags b ≡ (true, waits can_write input flags b)
unfolding submit hand_over waits
submit-waits can_write input flags b on r e =
    simp (on, prepared-asked input flags b, submit_task-sent can_write input flags b r e) refl

-- The poll of the bridge is the transport's, with the task that it leaves.
poll-waits :
    (can_write : ℕ → Bool) (arrived input : List ℕ) (flags : ℕ) (b : Bridge)
    → b.ready ≡ true
    → poll arrived (waits can_write input flags b) ≡ (
      (Receive.poll arrived
          (some (waits can_write input flags b).last_task)
          (waits can_write input flags b).line).0,
      record (waits can_write input flags b) {
        last_task =
            kept
              (waits can_write input flags b).last_task
              (Receive.poll arrived
                (some (waits can_write input flags b).last_task)
                (waits can_write input flags b).line).2;
        line =
            (Receive.poll arrived
              (some (waits can_write input flags b).last_task)
              (waits can_write input flags b).line).1;
      },
    )
unfolding poll poll_provider Serial.poll_task waits
poll-waits can_write arrived input flags b on = simp on refl

get_result-answered :
    (t : AiTask) (d : ℕ) (ds : List ℕ)
    → is_waiting t.status ≡ false
    → c_str t.output ≡ d ∷ ds
    → Serial.get_result (some t) ≡ d ∷ ds
unfolding Serial.get_result
get_result-answered t d ds s e = simp (s, holds_text t.output ds d e, e) refl

ended : (letter : ℕ) → is_waiting (if letter == b'S' then finished else failed) ≡ false
ended letter = elim (Bool-cases (letter == b'S')) [ inl e ↦ rw e refl | inr e ↦ rw e refl ]

-- What comes of a request and the answer to it: the request is taken under the next number, the
-- answer is delivered, and the result is then its text, cut to 1023 characters.
pub record Exchanged (letter : ℕ) (text : List ℕ) (b : Bridge) (asks gets : Bool × Bridge)
    : Type 0 where
  pub taken : asks.0 ≡ true
  pub numbered : asks.1.last_task.task_id ≡ b.next_task_id
  pub next_number : asks.1.next_task_id ≡ (b.next_task_id + 1) % 2 ^ 32
  pub answered : gets.0 ≡ true
  pub status : gets.1.last_task.status ≡ (if letter == b'S' then finished else failed)
  pub text_read : result gets.1 ≡ take 1023 text

asked-starts :
    (can_write : ℕ → Bool) (c : ℕ) (cs : List ℕ) (flags : ℕ) (b : Bridge)
    → IsValid b.last_task
    → IsText (c ∷ cs)
    → is_empty can_write (asked (c ∷ cs) flags b).input ≡ false
unfolding asked
asked-starts can_write c cs flags b v t =
    let held = copy_source b.last_task.input input_max (some (c ∷ cs)) in
    is_empty_lem can_write held (
      holds_text held (take 158 cs) c (
        c_str-copy_source b.last_task.input input_max (some (c ∷ cs)) (omega arith)
          (omega (arith, v.input_size)) t))

result-serial :
    (b : Bridge)
    → b.ready ≡ true
    → b.last_provider ≡ some serial_line
    → result b ≡ Serial.get_result (some b.last_task)
unfolding result
result-serial b on e = simp (on, e) refl

exchanged :
    (w : Bridge) (arrived : List ℕ) (letter d : ℕ) (ds : List ℕ) (b : Bridge)
    → b.ready ≡ true
    → w.last_task.task_id ≡ b.next_task_id
    → w.next_task_id ≡ (b.next_task_id + 1) % 2 ^ 32
    → w.last_provider ≡ some serial_line
    → Delivered letter (d ∷ ds) w.last_task (Receive.poll arrived (some w.last_task) w.line)
    → w.ready ≡ true
    → Exchanged letter
        (d ∷ ds)
        b
        (true, w)
        (
          (Receive.poll arrived (some w.last_task) w.line).0,
          record w {
            last_task = kept w.last_task (Receive.poll arrived (some w.last_task) w.line).2;
            line = (Receive.poll arrived (some w.last_task) w.line).1;
          },
        )
unfolding result
exchanged w arrived letter d ds b on id next line p ready =
    let t : AiTask = record (w.last_task) {
      status = if letter == b'S' then finished else failed;
      output = p.output;
    } in
    let gets : Bridge = record w {
      last_task = kept w.last_task (Receive.poll arrived (some w.last_task) w.line).2;
      line = (Receive.poll arrived (some w.last_task) w.line).1;
    } in
    let task : kept w.last_task (Receive.poll arrived (some w.last_task) w.line).2 ≡ t =
      ap (kept w.last_task) p.result in
    record {
      taken = refl;
      numbered = id;
      next_number = next;
      answered = p.answered;
      status = ap (λ u. u.status) task;
      text_read =
          result-serial gets ready line
          ∙ ap (λ u. Serial.get_result (some u)) task
          ∙ get_result-answered t d (take 1022 ds) (ended letter) p.text_read;
    }

-- When the bridge is ready, its task has its two buffers, the next number is below 2 ^ 32 and the
-- serial line is idle, a request of the type `hnlang` with an input that is not empty is taken under
-- the next number; and when the frame of an answer to that number has then come, with a letter that
-- does not end the line and a text of 1 to 1141 bytes without a NUL, the next poll ends the request,
-- well if the letter is S and as failed otherwise, and the result is the answer's text, cut to 1023
-- characters.
pub exchange_lem :
    (can_write : ℕ → Bool) (c : ℕ) (cs : List ℕ) (flags letter d : ℕ) (ds : List ℕ) (b : Bridge)
    → b.ready ≡ true
    → IsIdle b.line
    → IsValid b.last_task
    → b.next_task_id < 2 ^ 32
    → IsText (c ∷ cs)
    → IsLetter letter
    → IsBytes (d ∷ ds)
    → IsText (d ∷ ds)
    → length (d ∷ ds) ≤ 1141
    → Exchanged letter (d ∷ ds) b (submit can_write hnlang (some (c ∷ cs)) flags b) (
        poll
          (response b.next_task_id letter (d ∷ ds) ++ b'\n' ∷ [])
          (submit can_write hnlang (some (c ∷ cs)) flags b).1)
unfolding waits asked sent_line
exchange_lem can_write c cs flags letter d ds b on idle v small input l bytes text short =
    let w = waits can_write (c ∷ cs) flags b in
    let arrived = response b.next_task_id letter (d ∷ ds) ++ b'\n' ∷ [] in
    subst⁻¹ (λ (r : Bool × Bridge). Exchanged letter (d ∷ ds) b r (poll arrived r.1))
      (submit-waits can_write (c ∷ cs) flags b on idle.ready
        (asked-starts can_write c cs flags b v input))
      (subst⁻¹ (λ (p : Bool × Bridge). Exchanged letter (d ∷ ds) b (true, w) p)
        (poll-waits can_write arrived (c ∷ cs) flags b on)
        (exchanged w arrived letter d ds b on refl refl refl
          (poll-response w.last_task letter (d ∷ ds) w.line small
            (length-set b.last_task.output 0 0 ∙ v.output_size) l bytes text short idle.ready
            idle.ring idle.count idle.nothing_waits idle.line_begins idle.line_size
            idle.decoded_size)
          on))
