-- ===== src/Ai/Transport/Receive/Fifo.antt =====
-- The ring of 4096 slots implements a first-in first-out queue of at most 4095 characters.
use hnmos.Prelude.{
  ℕ, suc, ◌+◌, ◌%◌, ◌<◌, ◌≡◌, ◌≢◌, refl, sym, ap, ◌∙◌, true, false, Option, none, some, List, [],
  ◌∷◌, ◌++◌, arith, take-nil, ◌-◌, ◌^◌, ltb, ◌==◌, if◌then◌else◌, length, set, length-set,
  length-append, add32, take, Bool-cases, inl, inr,
}
use mathlib.Core.List.{append_assoc, append-nil}
use mathlib.Core.Path.{subst⁻¹}
use hnmos.Prelude.Ring
use hnmos.Prelude.Ring.{wrap, held}
use hnmos.Ai.Transport.Receive.{Rx, rx_capacity, push_rx, pop_rx, capture_rx}

pub record IsValid (r : Rx) : Type 0 where
  pub slots : length r.chars ≡ rx_capacity
  pub head_in : r.head < rx_capacity
  pub tail_in : r.tail < rx_capacity

-- The characters that wait, the oldest first.
abbrev pub waiting : Rx → List ℕ
waiting r = Ring.window rx_capacity 0 r.chars r.tail (held rx_capacity r.head r.tail)

next_slot : (i : ℕ) → i < rx_capacity → add32 i 1 % rx_capacity ≡ wrap rx_capacity (i + 1)
next_slot i h = ground arith

length-waiting : (r : Rx) → length (waiting r) ≡ held rx_capacity r.head r.tail
length-waiting r = Ring.length-window rx_capacity 0 r.chars r.tail (held rx_capacity r.head r.tail)

-- A character is put behind those that wait, or, when 4095 wait, dropped and counted.
pub record Pushed (c : ℕ) (r s : Rx) : Type 0 where
  pub valid : IsValid s
  pub chars : waiting s ≡ (if ltb (length (waiting r)) 4095 then waiting r ++ c ∷ [] else waiting r)
  pub dropped : s.dropped ≡ (if ltb (length (waiting r)) 4095 then r.dropped else add32 r.dropped 1)

abbrev stored : ℕ → Rx → Rx
stored c r = record r { chars = set r.chars r.head c; head = add32 r.head 1 % rx_capacity }

stored-Pushed :
    (c : ℕ) (r : Rx)
    → IsValid r
    → (add32 r.head 1 % rx_capacity == r.tail) ≡ false
    → Pushed c r (stored c r)
stored-Pushed c r v e =
    let room : ltb (length (waiting r)) 4095 ≡ true =
      ground (arith, length-waiting r, v.head_in, v.tail_in) in
    record {
      valid = record {
        slots = length-set r.chars r.head c ∙ v.slots;
        head_in = omega arith;
        tail_in = v.tail_in;
      };
      chars = rw room (
          ap
            (λ (i : ℕ).
              Ring.window rx_capacity 0 (set r.chars r.head c) r.tail (held rx_capacity i r.tail))
            (next_slot r.head v.head_in)
          ∙ Ring.window-push rx_capacity 0 r.chars r.head r.tail c v.slots v.head_in v.tail_in
              (ground (arith, v.head_in, v.tail_in)));
      dropped = rw room refl;
    }

refused-Pushed :
    (c : ℕ) (r : Rx)
    → IsValid r
    → (add32 r.head 1 % rx_capacity == r.tail) ≡ true
    → Pushed c r (record r { dropped = add32 r.dropped 1 })
refused-Pushed c r v e =
    let full : ltb (length (waiting r)) 4095 ≡ false =
      ground (arith, length-waiting r, v.head_in, v.tail_in) in
    record {
      valid = record { slots = v.slots; head_in = v.head_in; tail_in = v.tail_in };
      chars = rw full refl;
      dropped = rw full refl;
    }

pub push_rx_lem : (c : ℕ) (r : Rx) → IsValid r → Pushed c r (push_rx c r)
unfolding push_rx
push_rx_lem c r v = elim (Bool-cases (add32 r.head 1 % rx_capacity == r.tail)) [
  | inl full ↦ rw full (refused-Pushed c r v full)
  | inr room ↦ rw room (stored-Pushed c r v room)
]

-- What taking a character out answers and leaves, by the characters that waited.
abbrev pub Popped : Rx → Option ℕ × Rx → List ℕ → Type 0
Popped r (c, s) [] = (c ≡ none) × (s ≡ r)
Popped r (c, s) (x ∷ xs) = (c ≡ some x) × (waiting s ≡ xs) × IsValid s × (s.dropped ≡ r.dropped)

pub pop_rx_lem : (r : Rx) → IsValid r → Popped r (pop_rx r) (waiting r)
unfolding pop_rx Ring.window
pop_rx_lem r v = elim (Bool-cases (r.tail == r.head)) [
  | inl same ↦
      let nothing : held rx_capacity r.head r.tail ≡ 0 = ground arith in
      rw (same, nothing) (refl, refl)
  | inr differ ↦
      let apart : r.tail ≢ r.head = ground arith in
      subst⁻¹ (Popped r (pop_rx r))
        (Ring.window-pop rx_capacity 0 r.chars r.head r.tail v.head_in v.tail_in apart)
        (rw differ (
          refl,
          ap (λ (i : ℕ). Ring.window rx_capacity 0 r.chars i (held rx_capacity r.head i))
              (next_slot r.tail v.tail_in),
          record { slots = v.slots; head_in = v.head_in; tail_in = omega arith },
          refl,
        ))
]

-- What becomes of the characters that arrive.
pub record Captured (cs : List ℕ) (r s : Rx) : Type 0 where
  pub valid : IsValid s
  pub chars : waiting s ≡ waiting r ++ take (4095 - length (waiting r)) cs
  pub dropped : s.dropped ≡ (r.dropped + (length cs - (4095 - length (waiting r)))) % 2 ^ 32

-- One character more in front: what is kept of the rest.
take-after :
    (w cs : List ℕ) (c : ℕ)
    → (if ltb (length w) 4095 then w ++ c ∷ [] else w)
        ++ take (4095 - length (if ltb (length w) 4095 then w ++ c ∷ [] else w)) cs
      ≡ w ++ take (4095 - length w) (c ∷ cs)
take-after w cs c = elim (Bool-cases (ltb (length w) 4095)) [
  | inl room ↦ rw room (
      append_assoc w (c ∷ []) (take (4095 - length (w ++ c ∷ [])) cs)
      ∙ ap (λ (k : ℕ). w ++ take k (c ∷ cs)) {x = suc (4095 - length (w ++ c ∷ []))}
          (ground (arith, length-append w (c ∷ []))))
  | inr full ↦ let none_left : 4095 - length w ≡ 0 = ground arith in rw (full, none_left) refl
]

length-after :
    (w : List ℕ) (c : ℕ)
    → length (if ltb (length w) 4095 then w ++ c ∷ [] else w)
      ≡ (if ltb (length w) 4095 then length w + 1 else length w)
length-after w c = ground (arith, length-append w (c ∷ []))

-- The characters that arrive at a valid ring are put behind those that wait as far as there is room
-- for 4095 in all, in their order; the others are dropped, and each is counted.
pub capture_rx_lem :
    (cs : List ℕ) (r : Rx) → IsValid r → r.dropped < 2 ^ 32 → Captured cs r (capture_rx cs r)
unfolding capture_rx
capture_rx_lem [] r v d = record {
  valid = v;
  chars =
      sym (append-nil (waiting r))
      ∙ ap (λ l. waiting r ++ l) (sym (take-nil (4095 - length (waiting r))));
  dropped = omega arith;
}
capture_rx_lem (c ∷ cs) r v d =
    let p = push_rx_lem c r v in
    let small : (push_rx c r).dropped < 2 ^ 32 = ground (arith, p.dropped) in
    let h = capture_rx_lem cs (push_rx c r) p.valid small in
    record {
      valid = h.valid;
      chars =
          h.chars ∙ ap (λ l. l ++ take (4095 - length l) cs) p.chars ∙ take-after (waiting r) cs c;
      dropped =
          let n : length (waiting (push_rx c r)) ≡ (
              if ltb (length (waiting r)) 4095
              then length (waiting r) + 1
              else length (waiting r)) =
            ap length p.chars ∙ length-after (waiting r) c in
          h.dropped ∙ ground (arith, p.dropped, n);
    }
