-- ===== src/Graphics/Pixels.antt =====
-- A screen in memory is a picture: writing a pixel changes that pixel and no other, and no byte that
-- is not the screen's.
use hnmos.Prelude.{
  ℕ, zero, suc, ◌+◌, ◌*◌, ◌/◌, ◌%◌, ◌^◌, ◌≤◌, ◌<◌, ◌≡◌, ◌≢◌, refl, ap, ap₂, ◌∙◌, true, false, not,
  ◌||◌, ◌⊎◌, inl, inr, leb, ◌==◌, arith, dec_lt,
}
use native.Mathlib.Nat.{mul-le-mul_right, suc-mul}
use mathlib.Core.Path.{subst⁻¹}
use hnmos.Graphics.Framebuffer.{
  Framebuffer, Memory, write_byte, write_bytes, pack_color, pixel_address, put_pixel,
}

-- A number read from `n` bytes, the lowest first.
abbrev pub read_bytes : ℕ → ℕ → Memory → ℕ
read_bytes zero a memory = 0
read_bytes (suc n) a memory = memory a + 256 * read_bytes n (a + 1) memory

-- The lowest `n` bytes of a number.
abbrev pub low_bytes : ℕ → ℕ → ℕ
low_bytes zero value = 0
low_bytes (suc n) value = value % 256 + 256 * low_bytes n (value / 256)

abbrev pub Apart : ℕ → ℕ → ℕ → ℕ → Type 0
Apart a n b k = (a + n ≤ b) ⊎ (b + k ≤ a)

pub write_bytes-other :
    (n a value : ℕ) (memory : Memory) (b : ℕ)
    → Apart a n b 1
    → write_bytes n a value memory b ≡ memory b
unfolding write_bytes
write_bytes-other zero a value memory b h = refl
write_bytes-other (suc n) a value memory b (inl h) =
    write_bytes-other n (a + 1) (value / 256) _ b (inl (omega arith))
    ∙ (let ne : (b == a) ≡ false = ground arith in rw ne refl)
write_bytes-other (suc n) a value memory b (inr h) =
    write_bytes-other n (a + 1) (value / 256) _ b (inr (omega arith))
    ∙ (let ne : (b == a) ≡ false = ground arith in rw ne refl)

read_bytes-other :
    (k b n a value : ℕ) (memory : Memory)
    → Apart a n b k
    → read_bytes k b (write_bytes n a value memory) ≡ read_bytes k b memory
read_bytes-other zero b n a value memory h = refl
read_bytes-other (suc k) b n a value memory (inl h) =
    ap₂ (λ (x y : ℕ). x + 256 * y) (write_bytes-other n a value memory b (inl h))
      (read_bytes-other k (b + 1) n a value memory (inl (omega arith)))
read_bytes-other (suc k) b n a value memory (inr h) =
    ap₂ (λ (x y : ℕ). x + 256 * y) (write_bytes-other n a value memory b (inr (omega arith)))
      (read_bytes-other k (b + 1) n a value memory (inr (omega arith)))

read_bytes-write_bytes :
    (n a value : ℕ) (memory : Memory)
    → read_bytes n a (write_bytes n a value memory) ≡ low_bytes n value
unfolding write_bytes
read_bytes-write_bytes zero a value memory = refl
read_bytes-write_bytes (suc n) a value memory =
    let same : (a == a) ≡ true = ground arith in
    ap₂ (λ (x y : ℕ). x + 256 * y)
      (write_bytes-other n (a + 1) (value / 256) (write_byte a (value % 256) memory) a
          (inr (omega arith))
        ∙ rw same refl)
      (read_bytes-write_bytes n (a + 1) (value / 256) (write_byte a (value % 256) memory))

abbrev pub depth : Framebuffer → ℕ
depth fb = fb.bpp / 8

-- A screen that is there, in one of the three depths, with room for its rows, below 2 ^ 32.
pub record IsMapped (fb : Framebuffer) : Type 0 where
  pub available : fb.available ≡ true
  pub depths : (fb.bpp ≡ 16) ⊎ ((fb.bpp ≡ 24) ⊎ (fb.bpp ≡ 32))
  pub rows : fb.width * depth fb ≤ fb.pitch
  pub fits : fb.buffer + fb.height * fb.pitch ≤ 2 ^ 32

depth-pos : (fb : Framebuffer) → IsMapped fb → 0 < depth fb
depth-pos fb v = elim v.depths [
  | inl e ↦ omega (arith, e)
  | inr o ↦ elim o [ inl e ↦ omega (arith, e) | inr e ↦ omega (arith, e) ]
]

-- One step of `k` fits between two multiples.
multiples : (i j k : ℕ) → i < j → i * k + k ≤ j * k
multiples i j k h = omega (arith, mul-le-mul_right {m = suc i} {n = j} k (omega arith), suc-mul i k)

-- The pixel lies inside the screen's rows.
pixel_room :
    (fb : Framebuffer) (x y : ℕ)
    → IsMapped fb
    → x < fb.width
    → y < fb.height
    → y * fb.pitch + (x * depth fb + depth fb) ≤ fb.height * fb.pitch
pixel_room fb x y v hx hy =
    omega (arith, multiples y fb.height fb.pitch hy, multiples x fb.width (depth fb) hx, v.rows)

pub pixel_address_lem :
    (fb : Framebuffer) (x y : ℕ)
    → IsMapped fb
    → x < fb.width
    → y < fb.height
    → pixel_address fb x y ≡ fb.buffer + (y * fb.pitch + x * depth fb)
unfolding pixel_address
pixel_address_lem fb x y v hx hy =
    let room = pixel_room fb x y v hx hy in omega (arith, v.fits, depth-pos fb v)

lt-trichotomy : (i j : ℕ) → (i < j) ⊎ ((i ≡ j) ⊎ (j < i))
lt-trichotomy i j = elim (dec_lt i j) [
  | yes h ↦ inl h
  | no h ↦ elim (dec_lt j i) [ yes g ↦ inr (inr g) | no g ↦ inr (inl (omega arith)) ]
]

-- Two different pixels have no byte in common.
pixels_apart :
    (fb : Framebuffer) (x y x' y' : ℕ)
    → IsMapped fb
    → x < fb.width
    → y < fb.height
    → x' < fb.width
    → y' < fb.height
    → (x ≢ x') ⊎ (y ≢ y')
    → Apart (pixel_address fb x y) (depth fb) (pixel_address fb x' y') (depth fb)
pixels_apart fb x y x' y' v hx hy hx' hy' ne =
    let k = depth fb in
    let a = pixel_address_lem fb x y v hx hy in
    let b = pixel_address_lem fb x' y' v hx' hy' in
    let w = multiples x fb.width k hx in
    let w' = multiples x' fb.width k hx' in
    elim (lt-trichotomy y y') [
      | inl lt ↦ inl (omega (arith, a, b, w, v.rows, multiples y y' fb.pitch lt))
      | inr (inl e) ↦ elim (lt-trichotomy x x') [
        | inl lt ↦ inl (omega (arith, a, b, ap (λ i. i * fb.pitch) e, multiples x x' k lt))
        | inr (inl f) ↦ absurd (elim ne [ inl n ↦ n f | inr n ↦ n e ])
        | inr (inr gt) ↦ inr (omega (arith, a, b, ap (λ i. i * fb.pitch) e, multiples x' x k gt))
      ]
      | inr (inr gt) ↦ inr (omega (arith, a, b, w', v.rows, multiples y' y fb.pitch gt))
    ]

-- A pixel on the screen is written in the bytes of its depth.
put_pixel-write_bytes :
    (fb : Framebuffer) (x y color : ℕ) (memory : Memory)
    → IsMapped fb
    → x < fb.width
    → y < fb.height
    → put_pixel fb x y color memory
      ≡ write_bytes (depth fb) (pixel_address fb x y) (pack_color fb color) memory
unfolding put_pixel
put_pixel-write_bytes fb x y color memory v hx hy =
    let in_row : leb fb.width x ≡ false = ground arith in
    let in_column : leb fb.height y ≡ false = ground arith in
    elim v.depths [
      | inl e ↦ rw (v.available, in_row, in_column, e) refl
      | inr o ↦ elim o [
        | inl e ↦ rw (v.available, in_row, in_column, e) refl
        | inr e ↦ rw (v.available, in_row, in_column, e) refl
      ]
    ]

-- What is apart from the screen is apart from the pixel.
inside :
    (fb : Framebuffer) (x y b : ℕ)
    → IsMapped fb
    → x < fb.width
    → y < fb.height
    → Apart fb.buffer (fb.height * fb.pitch) b 1
    → Apart (pixel_address fb x y) (depth fb) b 1
inside fb x y b v hx hy far =
    let a = pixel_address_lem fb x y v hx hy in
    let room = pixel_room fb x y v hx hy in
    elim far [
      | inl low ↦ inl (omega (arith, a, room, low))
      | inr high ↦ inr (omega (arith, a, room, high))
    ]

-- The picture that the memory holds.
unfoldable pub picture : Framebuffer → Memory → ℕ → ℕ → ℕ
picture fb memory x y = read_bytes (depth fb) (pixel_address fb x y) memory

-- The number that a color leaves in a pixel.
unfoldable pub shown : Framebuffer → ℕ → ℕ
shown fb color = low_bytes (depth fb) (pack_color fb color)

-- The picture with one pixel changed, and all bytes outside the rows of the screen as they were.
pub record Painted (fb : Framebuffer) (x y color : ℕ) (before after : Memory) : Type 0 where
  pub pixel : picture fb after x y ≡ shown fb color
  pub others :
      (x' y' : ℕ)
      → x' < fb.width
      → y' < fb.height
      → (x ≢ x') ⊎ (y ≢ y')
      → picture fb after x' y' ≡ picture fb before x' y'
  pub outside : (b : ℕ) → Apart fb.buffer (fb.height * fb.pitch) b 1 → after b ≡ before b

-- On a screen in one of the three depths, with room for its rows and below 2 ^ 32, writing a pixel
-- of the screen gives it the packed color, cut to the depth, and changes neither another pixel nor
-- a byte outside the screen.
pub put_pixel_lem :
    (fb : Framebuffer) (x y color : ℕ) (memory : Memory)
    → IsMapped fb
    → x < fb.width
    → y < fb.height
    → Painted fb x y color memory (put_pixel fb x y color memory)
unfolding picture shown
put_pixel_lem fb x y color memory v hx hy =
    let k = depth fb in
    let a = pixel_address fb x y in
    let p = pack_color fb color in
    subst⁻¹ (Painted fb x y color memory) (put_pixel-write_bytes fb x y color memory v hx hy)
      (record {
        pixel = read_bytes-write_bytes k a p memory;
        others = λ x' y' hx' hy' ne.
            read_bytes-other k (pixel_address fb x' y') k a p memory
              (pixels_apart fb x y x' y' v hx hy hx' hy' ne);
        outside = λ b far. write_bytes-other k a p memory b (inside fb x y b v hx hy far);
      })

-- Off the screen nothing is written.
pub put_pixel-off :
    (fb : Framebuffer) (x y color : ℕ) (memory : Memory)
    → (fb.width ≤ x) ⊎ (fb.height ≤ y)
    → put_pixel fb x y color memory ≡ memory
unfolding put_pixel
put_pixel-off fb x y color memory h =
    let off : (not fb.available || leb fb.width x || leb fb.height y) ≡ true = ground arith in
    rw off refl
