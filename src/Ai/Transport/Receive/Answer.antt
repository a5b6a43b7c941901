-- ===== src/Ai/Transport/Receive/Answer.antt =====
-- A response frame that arrives is delivered to the task that it names.
use hnmos.Prelude.{
  ℕ, zero, suc, ◌+◌, ◌-◌, ◌*◌, ◌/◌, ◌%◌, ◌^◌, ◌≤◌, ◌<◌, ◌≡◌, ◌≢◌, refl, ap, ◌∙◌, Bool, true, Option,
  some, List, [], ◌∷◌, ◌++◌, arith, length, take, drop, ◌==◌, if◌then◌else◌, length-append,
  length-take,
}
use mathlib.Core.Path.{subst}
use hnmos.Prelude.Buffer.{
  codes, c_str, IsText, c_str-append, drop-cons, copy_text, c_str-copy_text, take-IsText,
}
use hnmos.Ai.Task.{copy_source, AiTask, TaskStatus, finished, failed, output_max, set_output}
use hnmos.Ai.Transport.{hex_u32, hex_digits, hex_digit, hex_text, hex_byte}
use hnmos.Ai.Transport.Hex.{IsBytes, decode_text-hex_text, parse_u32-hex_u32}
use hnmos.Ai.Transport.Receive.{
  Line, line_capacity, Serial, parse_response, is_answer_to, with_answer, prefix_matches,
  capture_rx, poll_from, poll,
}
use hnmos.Ai.Transport.Receive.Lines.{run, Runs, poll_from-Runs}
use hnmos.Ai.Transport.Receive.Fifo.{IsValid, waiting, capture_rx_lem}
use hnmos.Ai.Transport.Receive.Plain.{IsPlain, line_of, run-cons, run-plain, take_char-end}

-- The response frame without its end: the task's number, the letter of the result and the text.
abbrev pub response : ℕ → ℕ → List ℕ → List ℕ
response id letter text =
    codes "HNAI1|RES|" ++ (hex_u32 id ++ (b'|' ∷ letter ∷ b'|' ∷ hex_text text))

-- The digits of a hexadecimal code stand at '0' or behind it.
IsDigits : List ℕ → Type 0
IsDigits [] = Unit
IsDigits (c ∷ cs) = (b'0' ≤ c) × IsDigits cs

hex_digit-IsDigits : (v : ℕ) → b'0' ≤ hex_digit v
unfolding hex_digit
hex_digit-IsDigits v = ground arith

hex_digits-IsDigits : (n value : ℕ) → IsDigits (hex_digits n value)
unfolding hex_digits IsDigits
hex_digits-IsDigits zero value = tt
hex_digits-IsDigits (suc n) value =
    (hex_digit-IsDigits (value / 2 ^ (4 * n) % 16), hex_digits-IsDigits n value)

hex_text-IsDigits : (text : List ℕ) → IsDigits (hex_text text)
unfolding hex_text hex_byte IsDigits
hex_text-IsDigits [] = tt
hex_text-IsDigits (c ∷ cs) =
    (hex_digit-IsDigits (c / 16), (hex_digit-IsDigits (c % 16), hex_text-IsDigits cs))

digits-IsPlain : (cs : List ℕ) → IsDigits cs → IsPlain cs
unfolding IsDigits
digits-IsPlain [] d = tt
digits-IsPlain (c ∷ cs) d =
    ((λ e. absurd (omega arith)), (λ e. absurd (omega arith)), digits-IsPlain cs d.1)

digits-IsText : (cs : List ℕ) → IsDigits cs → IsText cs
unfolding IsDigits
digits-IsText [] d = tt
digits-IsText (c ∷ cs) d = ((λ e. absurd (omega arith)), digits-IsText cs d.1)

append-IsPlain : (cs ds : List ℕ) → IsPlain cs → IsPlain ds → IsPlain (cs ++ ds)
append-IsPlain [] ds p q = q
append-IsPlain (c ∷ cs) ds p q = (p.0, p.1, append-IsPlain cs ds p.2 q)

length-hex_text : (text : List ℕ) → length (hex_text text) ≡ 2 * length text
unfolding hex_text hex_byte
length-hex_text [] = refl
length-hex_text (c ∷ cs) = omega (arith, length-hex_text cs)

-- A letter that may stand in a frame.
abbrev pub IsLetter : ℕ → Type 0
IsLetter c = (c ≢ b'\r') × (c ≢ b'\n')

plain : (c : ℕ) (cs : List ℕ) → 14 ≤ c → IsPlain cs → IsPlain (c ∷ cs)
plain c cs h p = ((λ e. absurd (omega arith)), (λ e. absurd (omega arith)), p)

hex_u32-IsDigits : (value : ℕ) → IsDigits (hex_u32 value)
unfolding hex_u32
hex_u32-IsDigits value = hex_digits-IsDigits 8 value

response-IsPlain :
    (id letter : ℕ) (text : List ℕ) → IsLetter letter → IsPlain (response id letter text)
response-IsPlain id letter text l =
    let bars : IsPlain (b'|' ∷ letter ∷ b'|' ∷ hex_text text) =
      plain b'|' (letter ∷ b'|' ∷ hex_text text) (omega arith) (
        l.0,
        l.1,
        plain b'|' (hex_text text) (omega arith) (digits-IsPlain _ (hex_text-IsDigits text)),
      ) in
    append-IsPlain (codes "HNAI1|RES|") _ (ground arith)
      (append-IsPlain (hex_u32 id) _ (digits-IsPlain _ (hex_u32-IsDigits id)) bars)

length-response :
    (id letter : ℕ) (text : List ℕ) → length (response id letter text) ≡ 21 + 2 * length text
unfolding hex_u32 hex_digits
length-response id letter text = omega (arith, length-hex_text text)

-- A task of the right number takes the frame for its answer.
response-is_answer_to :
    (task : AiTask) (letter : ℕ) (text stale : List ℕ)
    → task.task_id < 2 ^ 32
    → is_answer_to task (response task.task_id letter text ++ 0 ∷ stale) ≡ true
unfolding is_answer_to prefix_matches hex_u32 hex_digits
response-is_answer_to task letter text stale h =
    let id =
      parse_u32-hex_u32 task.task_id (b'|' ∷ letter ∷ b'|' ∷ (hex_text text ++ 0 ∷ stale)) h in
    rw id (ground arith)

-- What becomes of the line and the task when the frame is read.
abbrev pub answered_with : ℕ → List ℕ → List ℕ → List ℕ → AiTask → Bool × Line × Option AiTask
answered_with letter text chars decoded task =
    let d = copy_text decoded output_max text in
    (
      true,
      line_of chars 0 d,
      with_answer (if letter == b'S' then finished else failed)
          (set_output (some (take 1023 text)) (some task)),
    )

parse_response-response :
    (task : AiTask) (letter : ℕ) (text stale decoded : List ℕ)
    → task.task_id < 2 ^ 32
    → IsBytes text
    → IsText text
    → length decoded ≡ 1024
    → parse_response
        (line_of (response task.task_id letter text ++ 0 ∷ stale) 0 decoded)
        (some task)
      ≡ answered_with letter text (response task.task_id letter text ++ 0 ∷ stale) decoded task
unfolding parse_response hex_u32 hex_digits
parse_response-response task letter text stale decoded h b t n =
    let whole = c_str-append (hex_text text) stale (digits-IsText _ (hex_text-IsDigits text)) in
    let read = decode_text-hex_text text decoded output_max (omega arith) b in
    let held = c_str-copy_text decoded output_max text (omega arith) (omega arith) t in
    rw (response-is_answer_to task letter text stale h, whole, read, held) refl

-- The line's buffer with the frame in it.
abbrev closed : List ℕ → List ℕ → List ℕ
closed frame stale = frame ++ 0 ∷ drop (suc (length frame)) stale

abbrev ran : List ℕ → Bool × Line × Option AiTask → Bool × List ℕ × Line × Option AiTask
ran rest (answered, l, task) = (answered, rest, l, task)

-- A run over a frame and its end, from the start of a line, delivers the answer that the frame holds.
run-response :
    (task : AiTask) (letter : ℕ) (text stale decoded rest : List ℕ)
    → task.task_id < 2 ^ 32
    → IsLetter letter
    → IsBytes text
    → IsText text
    → length text ≤ 1141
    → length stale ≡ line_capacity
    → length decoded ≡ 1024
    → run (response task.task_id letter text ++ b'\n' ∷ rest) (line_of stale 0 decoded) (some task)
      ≡ ran rest (
          answered_with letter text (closed (response task.task_id letter text) stale) decoded task)
run-response task letter text stale decoded rest h l b t n s d =
    let frame = response task.task_id letter text in
    let size = length-response task.task_id letter text in
    let (x, e) = drop-cons (length frame) stale (omega (arith, size)) in
    run-plain frame [] stale decoded (b'\n' ∷ rest) (some task)
      (response-IsPlain task.task_id letter text l) (omega (arith, size)) (omega (arith, size))
    ∙ ap
        (λ (k : List ℕ).
          run (b'\n' ∷ rest) (line_of (frame ++ k) (length frame) decoded) (some task))
        e
    ∙ run-cons b'\n' rest _ (some task) true _ _ (
        take_char-end frame (drop (suc (length frame)) stale) decoded x (some task)
        ∙ parse_response-response task letter text (drop (suc (length frame)) stale) decoded h b t
            d)

-- What an answer makes of the transport and the task: the ring is empty, a new line begins, and of
-- the task only the result and the text change; a reader of the text gets the first 1023 characters.
pub record Delivered (letter : ℕ) (text : List ℕ) (task : AiTask)
    (r : Bool × Serial × Option AiTask) : Type 0 where
  pub answered : r.0 ≡ true
  pub emptied : waiting r.1.rx ≡ []
  pub valid : IsValid r.1.rx
  pub restarted : r.1.line.length ≡ 0
  pub output : List ℕ
  pub result :
      r.2
      ≡ some (record task { status = if letter == b'S' then finished else failed; output = output })
  pub text_read : c_str output ≡ take 1023 text

take-all : (n : ℕ) (xs : List ℕ) → length xs ≤ n → take n xs ≡ xs
take-all zero [] h = refl
take-all zero (x ∷ xs) h = absurd (omega arith)
take-all (suc n) [] h = refl
take-all (suc n) (x ∷ xs) h = ap (λ l. x ∷ l) (take-all n xs (omega arith))

with_answer-set_output :
    (status : TaskStatus) (text : List ℕ) (task : AiTask)
    → with_answer status (set_output (some text) (some task))
      ≡ some (record task { status = status; output = copy_text task.output output_max text })
unfolding set_output copy_source
with_answer-set_output status text task = refl

-- When a frame has come for a task, with its number, a letter that does not end the line and the
-- code of a text of at most 1141 characters, at a ready transport whose ring is empty and whose line
-- begins, then polling delivers it: the task is finished if the letter is S and has failed
-- otherwise, its output is the text, cut to 1023 characters, and nothing else of it changes.
pub poll-response :
    (task : AiTask) (letter : ℕ) (text : List ℕ) (s : Serial)
    → task.task_id < 2 ^ 32
    → length task.output ≡ output_max
    → IsLetter letter
    → IsBytes text
    → IsText text
    → length text ≤ 1141
    → s.sender.ready ≡ true
    → IsValid s.rx
    → s.rx.dropped < 2 ^ 32
    → waiting s.rx ≡ []
    → s.line.length ≡ 0
    → length s.line.chars ≡ line_capacity
    → length s.line.decoded ≡ output_max
    → Delivered letter text task
        (poll (response task.task_id letter text ++ b'\n' ∷ []) (some task) s)
unfolding poll
poll-response task letter text s h o l b t n ready v small idle e c d =
    let arrived = response task.task_id letter text ++ b'\n' ∷ [] in
    let size : length arrived ≡ 22 + 2 * length text =
      length-append (response task.task_id letter text) (b'\n' ∷ [])
      ∙ omega (arith, length-response task.task_id letter text) in
    let got = capture_rx_lem arrived s.rx v small in
    let now : waiting (capture_rx arrived s.rx) ≡ arrived =
      got.chars
      ∙ ap (λ (w : List ℕ). w ++ take (4095 - length w) arrived) idle
      ∙ take-all 4095 arrived (omega arith) in
    let runs =
      poll_from-Runs 4096 arrived (capture_rx arrived s.rx) s.line (some task) got.valid now
        (omega arith) in
    let result =
      ap (λ (k : ℕ). run arrived (line_of s.line.chars k s.line.decoded) (some task)) e
      ∙ run-response task letter text s.line.chars s.line.decoded [] h l b t n c d in
    let p =
      subst (Runs (poll_from 4096 (capture_rx arrived s.rx) s.line (some task))) result runs in
    let set_text =
      with_answer-set_output (if letter == b'S' then finished else failed) (take 1023 text) task in
    rw ready (record {
      answered = p.0;
      emptied = p.1;
      valid = p.4;
      restarted = ap (λ l. l.length) p.2;
      output = copy_text task.output output_max (take 1023 text);
      result = p.3 ∙ set_text;
      text_read =
          c_str-copy_text task.output output_max (take 1023 text) (omega arith) (omega arith)
            (take-IsText 1023 text t)
          ∙ take-all 1023 (take 1023 text) (omega (arith, length-take 1023 text));
    })
