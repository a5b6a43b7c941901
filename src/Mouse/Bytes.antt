-- ===== src/Mouse/Bytes.antt =====
-- Single bytes: what is kept, what is skipped and what ends a packet.
use hnmos.Prelude.{
  ℕ, zero, suc, ◌+◌, ◌<◌, ◌≡◌, refl, ap, ◌∙◌, Bool, true, false, not, ◌&&◌, ◌||◌, List, [], ◌∷◌,
  arith, ltb, ◌==◌, length, set, get_or, add32, sub32, length-set, Bool-cases, inl, inr,
}
use mathlib.Core.Path.{subst⁻¹}
use hnmos.Interface.Events.{EventQueue}
use hnmos.Interface.Events.Series.{push_all}
use hnmos.Graphics.Framebuffer.{Framebuffer}
use hnmos.Mouse.{
  Mouse, packet_size, packet_byte, has_bit, sign_extend, buttons_mask, push_button_changes,
  apply_packet, handle_byte,
}
use hnmos.Mouse.Told.{packet_events, push_move_event_lem, push_button_changes_lem, told}
use hnmos.Mouse.Position.{
  IsScreen, forward, backward, forward-bound, backward-bound, clamp_position_lem,
}

-- The pointer is on the screen, and at most two bytes of a packet have come.
pub record IsValid (fb : Framebuffer) (m : Mouse) : Type 0 where
  pub packet_room : length m.packet ≡ packet_size
  pub bytes : (i : ℕ) → packet_byte m i < 256
  pub index : m.packet_index < packet_size
  pub x_in : m.x < fb.width
  pub y_in : m.y < fb.height

-- The mouse after a packet.
abbrev pub after_packet : Framebuffer → ℕ → ℕ → ℕ → Mouse → Mouse
after_packet fb flags dx dy m =
    let x = forward fb.width dx m.x in
    let y = backward fb.height dy m.y in
    record m {
      x = x;
      y = y;
      left_button = has_bit flags 0;
      right_button = has_bit flags 1;
      middle_button = has_bit flags 2;
      dirty = true;
      events =
          push_all
            (packet_events (m.left_button, m.right_button, m.middle_button) x y flags
              (sign_extend dx) (sub32 0 (sign_extend dy)))
            m.events;
    }

abbrev pub overflows : ℕ → Bool
overflows flags = has_bit flags 6 || has_bit flags 7

pub apply_packet_lem :
    (fb : Framebuffer) (m : Mouse)
    → IsScreen fb
    → IsValid fb m
    → overflows (packet_byte m 0) ≡ false
    → apply_packet fb m ≡ after_packet fb (packet_byte m 0) (packet_byte m 1) (packet_byte m 2) m
unfolding apply_packet
apply_packet_lem fb m s v h =
    let dx = packet_byte m 1 in
    let dy = packet_byte m 2 in
    let flags = packet_byte m 0 in
    let b = buttons_mask (has_bit flags 0) (has_bit flags 1) (has_bit flags 2) in
    let place = clamp_position_lem fb dx dy m.x m.y s (v.bytes 1) (v.bytes 2) v.x_in v.y_in in
    rw (h, place)
      (ap (λ (n : Mouse). record n { dirty = true })
        (ap
            (push_button_changes (m.left_button, m.right_button, m.middle_button)
              (has_bit flags 0, has_bit flags 1, has_bit flags 2) b)
            (push_move_event_lem (sign_extend dx) (sub32 0 (sign_extend dy)) b _)
          ∙ push_button_changes_lem m.left_button m.right_button m.middle_button (has_bit flags 0)
              (has_bit flags 1) (has_bit flags 2) b _
          ∙ ap
              (λ (q : EventQueue). record m {
                x = forward fb.width dx m.x;
                y = backward fb.height dy m.y;
                left_button = has_bit flags 0;
                right_button = has_bit flags 1;
                middle_button = has_bit flags 2;
                events = q;
              })
              (told (m.left_button, m.right_button, m.middle_button) (forward fb.width dx m.x)
                (backward fb.height dy m.y) flags (sign_extend dx) (sub32 0 (sign_extend dy))
                m.events)))

pub three_bytes :
    (l : List ℕ) (a b c : ℕ) → length l ≡ 3 → set (set (set l 0 a) 1 b) 2 c ≡ a ∷ b ∷ c ∷ []
three_bytes [] a b c h = absurd (omega arith)
three_bytes (x ∷ []) a b c h = absurd (omega arith)
three_bytes (x ∷ y ∷ []) a b c h = absurd (omega arith)
three_bytes (x ∷ y ∷ z ∷ []) a b c h = refl
three_bytes (x ∷ y ∷ z ∷ w ∷ l) a b c h = absurd (omega arith)

-- A byte that does not end a packet is kept.
pub handle_byte-keeps :
    (fb : Framebuffer) (value : ℕ) (m : Mouse)
    → ((m.packet_index == 0) && not (has_bit value 3)) ≡ false
    → m.packet_index < 2
    → handle_byte fb value m
      ≡ record m { packet = set m.packet m.packet_index value; packet_index = m.packet_index + 1 }
unfolding handle_byte
handle_byte-keeps fb value m first h =
    let next : add32 m.packet_index 1 ≡ m.packet_index + 1 = omega arith in
    let more : ltb (m.packet_index + 1) packet_size ≡ true = ground arith in
    rw (first, next, more) refl

-- The third byte ends it.
pub handle_byte-ends :
    (fb : Framebuffer) (value : ℕ) (m : Mouse)
    → m.packet_index ≡ 2
    → handle_byte fb value m
      ≡ apply_packet fb (record m { packet = set m.packet 2 value; packet_index = 0 })
unfolding handle_byte
handle_byte-ends fb value m h = rw h refl

handle_byte-skips :
    (fb : Framebuffer) (value : ℕ) (m : Mouse)
    → ((m.packet_index == 0) && not (has_bit value 3)) ≡ true
    → handle_byte fb value m ≡ m
unfolding handle_byte
handle_byte-skips fb value m h = rw h refl

apply_packet-overflows :
    (fb : Framebuffer) (m : Mouse) → overflows (packet_byte m 0) ≡ true → apply_packet fb m ≡ m
unfolding apply_packet
apply_packet-overflows fb m h = rw h refl

pub packet_byte-set :
    (l : List ℕ) (i value : ℕ)
    → value < 256
    → ((j : ℕ) → get_or l j 0 < 256)
    → (j : ℕ) → get_or (set l i value) j 0 < 256
packet_byte-set [] i value h b j = b j
packet_byte-set (x ∷ l) zero value h b zero = h
packet_byte-set (x ∷ l) zero value h b (suc j) = b (suc j)
packet_byte-set (x ∷ l) (suc i) value h b zero = b 0
packet_byte-set (x ∷ l) (suc i) value h b (suc j) = packet_byte-set l i value h (λ k. b (suc k)) j

apply_packet-IsValid :
    (fb : Framebuffer) (m : Mouse) → IsScreen fb → IsValid fb m → IsValid fb (apply_packet fb m)
apply_packet-IsValid fb m s v = elim (Bool-cases (overflows (packet_byte m 0))) [
  | inl e ↦ subst⁻¹ (IsValid fb) (apply_packet-overflows fb m e) v
  | inr e ↦ subst⁻¹ (IsValid fb) (apply_packet_lem fb m s v e) (record {
    packet_room = v.packet_room;
    bytes = v.bytes;
    index = v.index;
    x_in = forward-bound fb.width (packet_byte m 1) m.x v.x_in;
    y_in = backward-bound fb.height (packet_byte m 2) m.y v.y_in;
  })
]

-- Whatever byte comes to a mouse whose pointer is on a screen of at most 2 ^ 30 columns and rows, the
-- pointer stays on the screen, the packet keeps its three bytes and its index stays below three.
pub handle_byte-IsValid :
    (fb : Framebuffer) (value : ℕ) (m : Mouse)
    → IsScreen fb
    → value < 256
    → IsValid fb m
    → IsValid fb (handle_byte fb value m)
handle_byte-IsValid fb value m s h v =
    elim (Bool-cases ((m.packet_index == 0) && not (has_bit value 3))) [
      | inl skipped ↦ subst⁻¹ (IsValid fb) (handle_byte-skips fb value m skipped) v
      | inr taken ↦ elim (Bool-cases (ltb m.packet_index 2)) [
        | inl more ↦
            subst⁻¹ (IsValid fb) (handle_byte-keeps fb value m taken (ground arith)) (record {
              packet_room = length-set m.packet m.packet_index value ∙ v.packet_room;
              bytes = packet_byte-set m.packet m.packet_index value h v.bytes;
              index = ground (arith, v.index);
              x_in = v.x_in;
              y_in = v.y_in;
            })
        | inr full ↦ subst⁻¹ (IsValid fb) (handle_byte-ends fb value m (ground (arith, v.index))) (
            apply_packet-IsValid fb _ s (record {
              packet_room = length-set m.packet 2 value ∙ v.packet_room;
              bytes = packet_byte-set m.packet 2 value h v.bytes;
              index = omega arith;
              x_in = v.x_in;
              y_in = v.y_in;
            }))
      ]
    ]
