-- ===== src/Mouse/Packets.antt =====
-- What a packet of three bytes does to the pointer, the buttons and the queue of events.
use hnmos.Prelude.{
  ℕ, zero, suc, ◌<◌, ◌≡◌, refl, ap, ◌∙◌, true, false, List, [], ◌∷◌, arith, set, get_or, sub32,
}
use mathlib.Core.Path.{subst⁻¹}
use hnmos.Interface.Events.Queue
use hnmos.Interface.Events.Queue.{view}
use hnmos.Interface.Events.Series.{spec_push_all, push_all_lem}
use hnmos.Graphics.Framebuffer.{Framebuffer}
use hnmos.Mouse.{Mouse, has_bit, sign_extend, apply_packet, handle_byte}
use hnmos.Mouse.Told.{packet_events}
use hnmos.Mouse.Position.{IsScreen, forward, backward}
use hnmos.Mouse.Bytes.{
  IsValid, after_packet, apply_packet_lem, handle_byte-ends, handle_byte-keeps, overflows,
  packet_byte-set, three_bytes,
}

zeros : (j : ℕ) → get_or (0 ∷ 0 ∷ 0 ∷ []) j 0 < 256
zeros zero = omega arith
zeros (suc zero) = omega arith
zeros (suc (suc zero)) = omega arith
zeros (suc (suc (suc j))) = omega arith

-- What a whole packet leaves: the mouse after it, and the events in the queue as far as there is room.
abbrev pub Delivers : Framebuffer → ℕ → ℕ → ℕ → Mouse → Mouse → Type 0
Delivers fb flags dx dy m r =
    (r ≡ after_packet fb flags dx dy (record m { packet = flags ∷ dx ∷ dy ∷ []; packet_index = 0 }))
    × Queue.IsValid r.events
    × (view r.events
        ≡ spec_push_all
            (packet_events (m.left_button, m.right_button, m.middle_button)
              (forward fb.width dx m.x) (backward fb.height dy m.y) flags (sign_extend dx)
              (sub32 0 (sign_extend dy)))
            (view m.events))

abbrev feed : Framebuffer → ℕ → ℕ → ℕ → Mouse → Mouse
feed fb flags dx dy m = handle_byte fb dy (handle_byte fb dx (handle_byte fb flags m))

handle_three :
    (fb : Framebuffer) (flags dx dy : ℕ) (m : Mouse)
    → IsValid fb m
    → m.packet_index ≡ 0
    → has_bit flags 3 ≡ true
    → feed fb flags dx dy m
      ≡ apply_packet fb (record m { packet = flags ∷ dx ∷ dy ∷ []; packet_index = 0 })
handle_three fb flags dx dy m v start sync =
    let m1 : Mouse = record m { packet = set m.packet 0 flags; packet_index = 1 } in
    let m2 : Mouse = record m { packet = set (set m.packet 0 flags) 1 dx; packet_index = 2 } in
    let first : handle_byte fb flags m ≡ m1 =
      handle_byte-keeps fb flags m (rw (start, sync) refl) (omega arith) ∙ rw start refl in
    let second : handle_byte fb dx m1 ≡ m2 = handle_byte-keeps fb dx m1 refl (omega arith) in
    ap (λ n. handle_byte fb dy (handle_byte fb dx n)) first
    ∙ ap (handle_byte fb dy) second
    ∙ handle_byte-ends fb dy m2 refl
    ∙ ap (λ (l : List ℕ). apply_packet fb (record m { packet = l; packet_index = 0 }))
        (three_bytes m.packet flags dx dy v.packet_room)

-- Three bytes that arrive at a valid mouse at the start of a packet, the first with its fixed bit
-- and no overflow, on a screen of at most 2 ^ 30 columns and rows: the pointer moves by the second
-- byte to the right and by the third upwards, each read as a signed byte and stopped at the edge of
-- the screen; the buttons are the lowest bits of the first; and the queue, valid before, gets, as
-- far as there is room, one event of a move if a movement byte is not 0, also when the edge holds
-- the pointer where it is, and one for each button that changed, left, right, then middle.
pub packet_lem :
    (fb : Framebuffer) (flags dx dy : ℕ) (m : Mouse)
    → IsScreen fb
    → IsValid fb m
    → Queue.IsValid m.events
    → m.packet_index ≡ 0
    → flags < 256
    → dx < 256
    → dy < 256
    → has_bit flags 3 ≡ true
    → overflows flags ≡ false
    → Delivers fb flags dx dy m (feed fb flags dx dy m)
packet_lem fb flags dx dy m s v q start bf bx by_ sync fits =
    let whole : Mouse = record m { packet = flags ∷ dx ∷ dy ∷ []; packet_index = 0 } in
    let valid : IsValid fb whole = record {
      packet_room = refl;
      bytes = packet_byte-set (0 ∷ dx ∷ dy ∷ []) 0 flags bf (
          packet_byte-set (0 ∷ 0 ∷ dy ∷ []) 1 dx bx
            (packet_byte-set (0 ∷ 0 ∷ 0 ∷ []) 2 dy by_ zeros));
      index = omega arith;
      x_in = v.x_in;
      y_in = v.y_in;
    } in
    let es =
      packet_events (m.left_button, m.right_button, m.middle_button) (forward fb.width dx m.x)
        (backward fb.height dy m.y) flags (sign_extend dx) (sub32 0 (sign_extend dy)) in
    let pushed = push_all_lem es m.events q in
    subst⁻¹ (Delivers fb flags dx dy m)
      (handle_three fb flags dx dy m v start sync ∙ apply_packet_lem fb whole s valid fits)
      (refl, pushed.0, pushed.1)
