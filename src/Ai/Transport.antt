-- ===== src/Ai/Transport.antt =====
-- The framed serial line, kernel01/kernel/ai/ai_serial_transport.c: the hexadecimal code and the
-- frames that are sent; `Receive` has those that come back. What the line's status register says at
-- each reading is a parameter of the operations that write.
pub mod Hex
pub mod Frame
pub mod Receive
mod Tests
use hnmos.Prelude.{
  ℕ, zero, suc, ◌+◌, ◌-◌, ◌*◌, ◌/◌, ◌%◌, ◌^◌, Bool, true, false, not, ◌&&◌, ◌||◌, Option, none,
  some, List, [], ◌∷◌, ◌++◌, leb, ltb, ◌==◌, if◌then◌else◌, set,
}
use hnmos.Prelude.Buffer.{codes, c_str}
use hnmos.Ai.Task.{AiTask, type_number}

-- The line: how often its status was read, and the bytes that were written to it.
pub record Port : Type 0 where
  pub reads : ℕ
  pub written : List ℕ

-- The static state of the sender, with the line.
pub record Transport : Type 0 where
  pub ready : Bool
  pub port : Port

unfoldable pub hex_digit : ℕ → ℕ
hex_digit value = if ltb value 10 then b'0' + value else b'A' + (value - 10)

-- `none` for -1.
unfoldable pub hex_value : ℕ → Option ℕ
hex_value c =
    if leb b'0' c && leb c b'9'
    then some (c - b'0')
    else (if leb b'A' c && leb c b'F'
        then some (10 + (c - b'A'))
        else (if leb b'a' c && leb c b'f' then some (10 + (c - b'a')) else none))

-- The two digits of `hnm_ai_serial_write_hex_byte`.
unfoldable pub hex_byte : ℕ → List ℕ
hex_byte value = hex_digit (value / 16) ∷ hex_digit (value % 16) ∷ []

-- The digits of `hnm_ai_serial_write_hex_u32` from the shift `4 * n` less four down to 0.
unfoldable pub hex_digits : ℕ → ℕ → List ℕ
hex_digits zero value = []
hex_digits (suc n) value = hex_digit (value / 2 ^ (4 * n) % 16) ∷ hex_digits n value

unfoldable pub hex_u32 : ℕ → List ℕ
hex_u32 value = hex_digits 8 value

-- The digits of `hnm_ai_serial_write_hex_text`.
unfoldable pub hex_text : List ℕ → List ℕ
hex_text [] = []
hex_text (c ∷ cs) = hex_byte c ++ hex_text cs

-- The loop of `hnm_ai_serial_parse_u32` with `n` digits to go.
unfoldable pub parse_digits : ℕ → ℕ → List ℕ → Option ℕ
parse_digits zero result text = some result
parse_digits (suc n) result [] = none
parse_digits (suc n) result (c ∷ cs) = elim (hex_value c) [
  | none ↦ none
  | some digit ↦ parse_digits n ((result * 16) % 2 ^ 32 + digit) cs
]

unfoldable pub parse_u32 : List ℕ → Option ℕ
parse_u32 text = parse_digits 8 0 text

-- The loop of `hnm_ai_serial_decode_text`: whether it came to the end, the buffer and the index.
unfoldable pub decode_from : List ℕ → ℕ → ℕ → List ℕ → Bool × List ℕ × ℕ
decode_from decoded i capacity [] = (true, decoded, i)
decode_from decoded i capacity (c ∷ []) = (false, decoded, i)
decode_from decoded i capacity (c ∷ d ∷ cs) = elim (hex_value c) [
  | none ↦ (false, decoded, i)
  | some high ↦ elim (hex_value d) [
    | none ↦ (false, decoded, i)
    | some low ↦ elim (ltb (i + 1) capacity) [
      | true ↦ decode_from (set decoded i (16 * high + low)) (i + 1) capacity cs
      | false ↦ decode_from decoded i capacity cs
    ]
  ]
]

unfoldable pub decode_text : List ℕ → List ℕ → ℕ → Bool × List ℕ
decode_text encoded decoded capacity =
    let (complete, d, n) = decode_from decoded 0 capacity encoded in
    if capacity == 0 then (false, decoded) else (if complete then (true, set d n 0) else (false, d))

module _ (can_write : ℕ → Bool) where
  -- The attempts that are left of `hnm_ai_serial_write_char`. The n-th reading of the status finds
  -- room as `can_write n` says.
  unfoldable pub attempts : ℕ → ℕ → Port → Port
  attempts zero c p = p
  attempts (suc n) c p = elim (can_write p.reads) [
    | true ↦ record { reads = p.reads + 1; written = p.written ++ c ∷ [] }
    | false ↦ attempts n c (record p { reads = p.reads + 1 })
  ]

  unfoldable pub write_char : ℕ → Port → Port
  write_char c p = attempts 100000 c p

  unfoldable pub write_text : List ℕ → Port → Port
  write_text [] p = p
  write_text (c ∷ cs) p = write_text cs (write_char c p)

  -- `hnm_ai_serial_transport_send_api_key`
  unfoldable pub send_api_key : Option (List ℕ) → Transport → Bool × Transport
  send_api_key none t = (false, t)
  send_api_key (some []) t = (false, t)
  send_api_key (some (c ∷ cs)) t = if not t.ready then (false, t) else (
    true,
    record t {
      port =
          write_char b'\n'
            (write_text (hex_text (c ∷ cs)) (write_text (codes "HNAI1|KEY|") t.port));
    },
  )

  -- A null pointer is not written.
  abbrev write_hex_option : Option (List ℕ) → Port → Port
  write_hex_option none p = p
  write_hex_option (some text) p = write_text (hex_text text) p

  -- The writes of `hnm_ai_serial_transport_send`.
  unfoldable pub write_request : AiTask → Port → Port
  write_request task p =
      let p1 = write_text (hex_u32 task.task_id) (write_text (codes "HNAI1|REQ|") p) in
      let p2 = write_text (hex_byte (type_number task.task_type)) (write_char b'|' p1) in
      let p3 = write_text (hex_text (c_str task.input)) (write_char b'|' p2) in
      write_char b'\n' (write_hex_option task.language_profile (write_char b'|' p3))

  abbrev pub is_empty : List ℕ → Bool
  is_empty [] = true
  is_empty (c ∷ cs) = c == 0

  unfoldable pub send : Option AiTask → Transport → Bool × Transport
  send none t = (false, t)
  send (some task) t =
      if not t.ready || is_empty task.input
      then (false, t)
      else (true, record t { port = write_request task t.port })
