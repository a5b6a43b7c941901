-- ===== src/Ai/Transport/Hex.antt =====
-- The hexadecimal code round trips: what a sender writes as digits, a receiver reads back.
use hnmos.Prelude.{
  ℕ, suc, ◌+◌, ◌*◌, ◌/◌, ◌%◌, ◌^◌, ◌<◌, ◌≡◌, refl, ap, ◌∙◌, Bool, true, false, some, List, [], ◌∷◌,
  ◌++◌, arith, ltb, ◌==◌, if◌then◌else◌, set, Bool-cases, inl, inr,
}
use hnmos.Prelude.Buffer.{copy_from, copy_text}
use hnmos.Ai.Transport.{
  hex_digit, hex_value, hex_byte, hex_digits, hex_u32, hex_text, parse_digits, parse_u32,
  decode_from, decode_text,
}

hex_value-hex_digit : (d : ℕ) → d < 16 → hex_value (hex_digit d) ≡ some d
unfolding hex_digit hex_value
hex_value-hex_digit d h = ground arith

abbrev pub IsBytes : List ℕ → Type 0
IsBytes [] = Unit
IsBytes (c ∷ cs) = (c < 256) × IsBytes cs

-- One digit more is read.
parse_digits-hex_digit :
    (n result d : ℕ) (text : List ℕ)
    → d < 16
    → parse_digits (suc n) result (hex_digit d ∷ text)
      ≡ parse_digits n ((result * 16) % 2 ^ 32 + d) text
unfolding parse_digits
parse_digits-hex_digit n result d text h = rw (hex_value-hex_digit d h, parse_digits) refl

-- Two digits more are decoded.
decode_from-two :
    (dest : List ℕ) (i capacity a b high low : ℕ) (cs : List ℕ)
    → hex_value a ≡ some high
    → hex_value b ≡ some low
    → decode_from dest i capacity (a ∷ b ∷ cs) ≡ (
        if ltb (i + 1) capacity
        then decode_from (set dest i (16 * high + low)) (i + 1) capacity cs
        else decode_from dest i capacity cs)
unfolding decode_from
decode_from-two dest i capacity a b high low cs e f = elim (Bool-cases (ltb (i + 1) capacity)) [
  | inl room ↦ rw (e, f, room, decode_from) refl
  | inr full ↦ rw (e, f, full, decode_from) refl
]

decode_from-hex_byte :
    (dest : List ℕ) (i capacity c : ℕ) (cs : List ℕ)
    → c < 256
    → decode_from dest i capacity (hex_byte c ++ cs) ≡ (
        if ltb (i + 1) capacity
        then decode_from (set dest i c) (i + 1) capacity cs
        else decode_from dest i capacity cs)
unfolding hex_byte
decode_from-hex_byte dest i capacity c cs h =
    decode_from-two dest i capacity (hex_digit (c / 16)) (hex_digit (c % 16)) (c / 16) (c % 16) cs
      (hex_value-hex_digit (c / 16) (omega arith)) (hex_value-hex_digit (c % 16) (omega arith))
    ∙ ap
        (λ (v : ℕ).
          if ltb (i + 1) capacity
          then decode_from (set dest i v) (i + 1) capacity cs
          else decode_from dest i capacity cs)
        (omega arith)

copy_from-full :
    (dest : List ℕ) (i capacity : ℕ) (s : List ℕ)
    → ltb (i + 1) capacity ≡ false
    → copy_from dest i capacity s ≡ (dest, i)
unfolding copy_from
copy_from-full dest i capacity [] h = refl
copy_from-full dest i capacity (c ∷ cs) h = rw h refl

decode_from-hex_text :
    (dest : List ℕ) (i capacity : ℕ) (s : List ℕ)
    → IsBytes s
    → decode_from dest i capacity (hex_text s)
      ≡ (true, (copy_from dest i capacity s).0, (copy_from dest i capacity s).1)
unfolding hex_text copy_from decode_from
decode_from-hex_text dest i capacity [] b = refl
decode_from-hex_text dest i capacity (c ∷ cs) b =
    decode_from-hex_byte dest i capacity c (hex_text cs) b.0
    ∙ elim (Bool-cases (ltb (i + 1) capacity)) [
      | inl room ↦ rw room (decode_from-hex_text (set dest i c) (i + 1) capacity cs b.1)
      | inr full ↦ rw full (
          decode_from-hex_text dest i capacity cs b.1
          ∙ ap {B = Bool × List ℕ × ℕ} (λ (r : List ℕ × ℕ). (true, r.0, r.1))
              (copy_from-full dest i capacity cs full))
    ]

-- Decoding what was encoded from bytes succeeds, and leaves in the buffer what a copy of the bytes,
-- cut to the capacity and ended by a NUL, would have left, whatever the buffer's capacity but 0.
pub decode_text-hex_text :
    (s decoded : List ℕ) (capacity : ℕ)
    → 0 < capacity
    → IsBytes s
    → decode_text (hex_text s) decoded capacity ≡ (true, copy_text decoded capacity s)
unfolding decode_text copy_text
decode_text-hex_text s decoded capacity h b =
    let some_room : (capacity == 0) ≡ false = ground arith in
    rw (some_room, decode_from-hex_text decoded 0 capacity s b) refl

parse_digits-zero : (result : ℕ) (text : List ℕ) → parse_digits 0 result text ≡ some result
unfolding parse_digits
parse_digits-zero result text = refl

-- A number below 2 ^ 32, written as eight digits, is read back, whatever follows it.
pub parse_u32-hex_u32 :
    (value : ℕ) (rest : List ℕ) → value < 2 ^ 32 → parse_u32 (hex_u32 value ++ rest) ≡ some value
unfolding parse_u32 hex_u32 hex_digits
parse_u32-hex_u32 value rest h =
    let r0 : ℕ = (0 * 16) % 2 ^ 32 + value / 268435456 % 16 in
    let r1 : ℕ = (r0 * 16) % 2 ^ 32 + value / 16777216 % 16 in
    let r2 : ℕ = (r1 * 16) % 2 ^ 32 + value / 1048576 % 16 in
    let r3 : ℕ = (r2 * 16) % 2 ^ 32 + value / 65536 % 16 in
    let r4 : ℕ = (r3 * 16) % 2 ^ 32 + value / 4096 % 16 in
    let r5 : ℕ = (r4 * 16) % 2 ^ 32 + value / 256 % 16 in
    let r6 : ℕ = (r5 * 16) % 2 ^ 32 + value / 16 % 16 in
    let r7 : ℕ = (r6 * 16) % 2 ^ 32 + value / 1 % 16 in
    parse_digits-hex_digit 7 0 (value / 268435456 % 16) _ (omega arith)
    ∙ parse_digits-hex_digit 6 r0 (value / 16777216 % 16) _ (omega arith)
    ∙ parse_digits-hex_digit 5 r1 (value / 1048576 % 16) _ (omega arith)
    ∙ parse_digits-hex_digit 4 r2 (value / 65536 % 16) _ (omega arith)
    ∙ parse_digits-hex_digit 3 r3 (value / 4096 % 16) _ (omega arith)
    ∙ parse_digits-hex_digit 2 r4 (value / 256 % 16) _ (omega arith)
    ∙ parse_digits-hex_digit 1 r5 (value / 16 % 16) _ (omega arith)
    ∙ parse_digits-hex_digit 0 r6 (value / 1 % 16) _ (omega arith)
    ∙ parse_digits-zero r7 rest
    ∙ ap some (omega arith)
