-- ===== src/Graphics/Framebuffer.antt =====
-- The framebuffer, kernel01/kernel/graphics/framebuffer.{h,c} and color.c: where it comes from at the
-- start, and how a pixel is written. The memory is a function from addresses to bytes; what the boot
-- loader left there, the identification of the display adapter and the PCI registers are parameters.
use hnmos.Prelude.{
  ℕ, zero, suc, ◌+◌, ◌-◌, ◌*◌, ◌/◌, ◌%◌, ◌^◌, Bool, true, false, not, ◌&&◌, ◌||◌, Option, none,
  some, ltb, leb, ◌==◌, if◌then◌else◌, add32, mul32,
}
use Prim.Native.Nat.{bit_or}

-- `enum hnm_framebuffer_source`
pub data Source : Type 0 where
  no_source multiboot bga : Source

-- `struct hnm_framebuffer`; `buffer` is the address once more.
pub record Framebuffer : Type 0 where
  pub buffer : ℕ
  pub address : ℕ
  pub width : ℕ
  pub height : ℕ
  pub pitch : ℕ
  pub bpp : ℕ
  pub kind : ℕ
  pub red_position : ℕ
  pub red_mask_size : ℕ
  pub green_position : ℕ
  pub green_mask_size : ℕ
  pub blue_position : ℕ
  pub blue_mask_size : ℕ
  pub source : Source
  pub available : Bool

abbrev pub Memory : Type 0
Memory = ℕ → ℕ

abbrev pub write_byte : ℕ → ℕ → Memory → Memory
write_byte a v memory = λ b. if b == a then v else memory b

-- `hnm_color_rgb`: the components stand in bits of their own.
unfoldable pub color_rgb : ℕ → ℕ → ℕ → ℕ
color_rgb red green blue = red * 65536 + green * 256 + blue

unfoldable pub color_red : ℕ → ℕ
color_red color = color / 65536 % 256

unfoldable pub color_green : ℕ → ℕ
color_green color = color / 256 % 256

unfoldable pub color_blue : ℕ → ℕ
color_blue color = color % 256

unfoldable pub supported_bpp : ℕ → Bool
supported_bpp bpp = (bpp == 16) || (bpp == 24) || (bpp == 32)

unfoldable pub set_default_masks : Framebuffer → Framebuffer
set_default_masks fb =
    if fb.bpp == 16
    then record fb {
      red_position = 11;
      red_mask_size = 5;
      green_position = 5;
      green_mask_size = 6;
      blue_position = 0;
      blue_mask_size = 5;
    }
    else record fb {
      red_position = 16;
      red_mask_size = 8;
      green_position = 8;
      green_mask_size = 8;
      blue_position = 0;
      blue_mask_size = 8;
    }

-- `struct hnm_multiboot_info`, the fields that are read here.
pub record DisplayInfo : Type 0 where
  pub flags : ℕ
  pub addr_low : ℕ
  pub addr_high : ℕ
  pub pitch : ℕ
  pub width : ℕ
  pub height : ℕ
  pub bpp : ℕ
  pub kind : ℕ
  pub red_position : ℕ
  pub red_mask_size : ℕ
  pub green_position : ℕ
  pub green_mask_size : ℕ
  pub blue_position : ℕ
  pub blue_mask_size : ℕ

-- The tests in front of the first write.
unfoldable pub is_usable : DisplayInfo → Bool
is_usable info =
    not (info.flags / 4096 % 2 == 0)
    && (info.addr_high == 0)
    && (info.kind == 1)
    && supported_bpp info.bpp
    && not ((info.addr_low == 0) || (info.width == 0) || (info.height == 0) || (info.pitch == 0))

abbrev from_info : DisplayInfo → Framebuffer
from_info info = record {
  buffer = info.addr_low;
  address = info.addr_low;
  width = info.width;
  height = info.height;
  pitch = info.pitch;
  bpp = info.bpp;
  kind = info.kind;
  red_position = info.red_position;
  red_mask_size = info.red_mask_size;
  green_position = info.green_position;
  green_mask_size = info.green_mask_size;
  blue_position = info.blue_position;
  blue_mask_size = info.blue_mask_size;
  source = multiboot;
  available = true;
}

-- `hnm_framebuffer_init_multiboot`; `none` is the address 0.
unfoldable pub init_multiboot : Option DisplayInfo → Framebuffer → Bool × Framebuffer
init_multiboot none fb = (false, fb)
init_multiboot (some info) fb =
    let masks_missing =
      (info.red_mask_size == 0) || (info.green_mask_size == 0) || (info.blue_mask_size == 0) in
    if not (is_usable info)
    then (false, fb)
    else (true, (if masks_missing then set_default_masks (from_info info) else from_info info))

-- What the display adapter and the PCI bus answer.
pub record Adapter : Type 0 where
  pub bga_id : ℕ
  pub read_config : ℕ → ℕ → ℕ

-- The loop of `hnm_bga_find_lfb_address` with `n` of the 32 devices to go.
unfoldable pub find_lfb_from : Adapter → ℕ → ℕ
find_lfb_from a zero = 0
find_lfb_from a (suc n) =
    let device = 31 - n in
    let others = find_lfb_from a n in
    let bar0 = a.read_config device 0x10 in
    if a.read_config device 0 % 65536 == 0xFFFF
    then others
    else (if (a.read_config device 0x08 / 2 ^ 24 % 256 == 0x03) && (bar0 % 2 == 0)
        then bar0 - bar0 % 16
        else others)

unfoldable pub find_lfb_address : Adapter → ℕ
find_lfb_address a = find_lfb_from a 32

-- `hnm_framebuffer_init_bga`, without the writes to the adapter's registers.
unfoldable pub init_bga : Adapter → Framebuffer → Bool × Framebuffer
init_bga a fb =
    let lfb_address = find_lfb_address a in
    if ltb a.bga_id 0xB0C0 || ltb 0xB0C5 a.bga_id || (lfb_address == 0) then (false, fb) else (
      true,
      set_default_masks (record fb {
        buffer = lfb_address;
        address = lfb_address;
        width = 1024;
        height = 768;
        pitch = 1024 * 4;
        bpp = 32;
        kind = 1;
        source = bga;
        available = true;
      }),
    )

unfoldable pub init : Option DisplayInfo → Adapter → Framebuffer → Bool × Framebuffer
init info a fb =
    let cleared : Framebuffer = record fb { available = false; source = no_source } in
    let (ok, found) = init_multiboot info cleared in
    if ok then (true, found) else init_bga a cleared

-- `value << k` and `value >> k` on 32 bits.
abbrev shift_left : ℕ → ℕ → ℕ
shift_left value k = (value * 2 ^ k) % 2 ^ 32

abbrev shift_right : ℕ → ℕ → ℕ
shift_right value k = value / 2 ^ k

unfoldable pub component : ℕ → ℕ → ℕ
component value mask_size =
    if mask_size == 0
    then 0
    else (if leb 8 mask_size
        then shift_left value (mask_size - 8)
        else shift_right value (8 - mask_size))

unfoldable pub pack_color : Framebuffer → ℕ → ℕ
pack_color fb color =
    bit_or
      (bit_or (shift_left (component (color_red color) fb.red_mask_size) fb.red_position)
        (shift_left (component (color_green color) fb.green_mask_size) fb.green_position))
      (shift_left (component (color_blue color) fb.blue_mask_size) fb.blue_position)

-- The lowest `n` bytes of a number, from an address on.
unfoldable pub write_bytes : ℕ → ℕ → ℕ → Memory → Memory
write_bytes zero a value memory = memory
write_bytes (suc n) a value memory =
    write_bytes n (a + 1) (value / 256) (write_byte a (value % 256) memory)

-- `buffer + y * pitch + x * (bpp / 8)`
unfoldable pub pixel_address : Framebuffer → ℕ → ℕ → ℕ
pixel_address fb x y = add32 (add32 fb.buffer (mul32 y fb.pitch)) (mul32 x (fb.bpp / 8))

unfoldable pub put_pixel : Framebuffer → ℕ → ℕ → ℕ → Memory → Memory
put_pixel fb x y color memory =
    let pixel = pixel_address fb x y in
    let packed = pack_color fb color in
    if not fb.available || leb fb.width x || leb fb.height y
    then memory
    else (if fb.bpp == 32
        then write_bytes 4 pixel packed memory
        else (if fb.bpp == 24
            then write_bytes 3 pixel packed memory
            else (if fb.bpp == 16 then write_bytes 2 pixel packed memory else memory)))

-- The inner loop of `hnm_framebuffer_clear` with `n` columns to go.
unfoldable pub clear_row : Framebuffer → ℕ → ℕ → ℕ → Memory → Memory
clear_row fb color y zero memory = memory
clear_row fb color y (suc n) memory =
    clear_row fb color y n (put_pixel fb (fb.width - suc n) y color memory)

-- The outer loop with `n` rows to go.
unfoldable pub clear_rows : Framebuffer → ℕ → ℕ → Memory → Memory
clear_rows fb color zero memory = memory
clear_rows fb color (suc n) memory =
    clear_rows fb color n (clear_row fb color (fb.height - suc n) fb.width memory)

unfoldable pub clear : Framebuffer → ℕ → Memory → Memory
clear fb color memory = if not fb.available then memory else clear_rows fb color fb.height memory
