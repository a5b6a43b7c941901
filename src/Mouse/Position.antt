-- ===== src/Mouse/Position.antt =====
-- The clamp keeps the pointer on the screen, and moves it by what a packet reports.
use hnmos.Prelude.{
  ℕ, ◌+◌, ◌-◌, ◌^◌, ◌≤◌, ◌<◌, ◌≡◌, true, false, arith, ltb, ◌==◌, if◌then◌else◌, min, add32, sub32,
  ap₂,
}
use hnmos.Graphics.Framebuffer.{Framebuffer}
use hnmos.Mouse.{sign_extend, clamp, clamp_position}

-- A screen of at most 2 ^ 30 columns and rows, which is there.
pub record IsScreen (fb : Framebuffer) : Type 0 where
  pub available : fb.available ≡ true
  pub some_width : 0 < fb.width
  pub width_bound : fb.width ≤ 2 ^ 30
  pub some_height : 0 < fb.height
  pub height_bound : fb.height ≤ 2 ^ 30

-- Right or down by a byte of a packet, on a line of `limit` places: a byte from 128 on counts back.
abbrev pub forward : ℕ → ℕ → ℕ → ℕ
forward limit byte at = if ltb byte 128 then min (at + byte) (limit - 1) else at - (256 - byte)

-- Left or up.
abbrev pub backward : ℕ → ℕ → ℕ → ℕ
backward limit byte at = if ltb byte 128 then at - byte else min (at + (256 - byte)) (limit - 1)

pub forward-bound : (limit byte at : ℕ) → at < limit → forward limit byte at < limit
forward-bound limit byte at h = ground arith

pub backward-bound : (limit byte at : ℕ) → at < limit → backward limit byte at < limit
backward-bound limit byte at h = ground arith

pub sign_extend_lem :
    (byte : ℕ) → byte < 256 → sign_extend byte ≡ (if ltb byte 128 then byte else byte + 4294967040)
unfolding sign_extend
sign_extend_lem byte h = ground arith

clamp-forward :
    (limit byte at : ℕ)
    → byte < 256
    → at < limit
    → limit ≤ 2 ^ 30
    → clamp (add32 at (if ltb byte 128 then byte else byte + 4294967040)) (sub32 limit 1)
      ≡ forward limit byte at
clamp-forward limit byte at b h l = ground arith

clamp-backward :
    (limit byte at : ℕ)
    → byte < 256
    → at < limit
    → limit ≤ 2 ^ 30
    → clamp (sub32 at (if ltb byte 128 then byte else byte + 4294967040)) (sub32 limit 1)
      ≡ backward limit byte at
clamp-backward limit byte at b h l = ground arith

pub clamp_position_lem :
    (fb : Framebuffer) (dx dy x y : ℕ)
    → IsScreen fb
    → dx < 256
    → dy < 256
    → x < fb.width
    → y < fb.height
    → clamp_position fb (add32 x (sign_extend dx)) (sub32 y (sign_extend dy))
      ≡ (forward fb.width dx x, backward fb.height dy y)
unfolding clamp_position
clamp_position_lem fb dx dy x y s bx by_ hx hy =
    let wide : (fb.width == 0) ≡ false = ground (arith, s.some_width) in
    let high : (fb.height == 0) ≡ false = ground (arith, s.some_height) in
    rw (s.available, wide, high, sign_extend_lem dx bx, sign_extend_lem dy by_)
      (ap₂ (λ (a b : ℕ). (a, b)) (clamp-forward fb.width dx x bx hx s.width_bound)
        (clamp-backward fb.height dy y by_ hy s.height_bound))
