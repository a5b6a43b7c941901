-- ===== src/Graphics/Tests.antt =====
-- A screen of three columns and two rows with 16 bits a pixel, at address 64.
use hnmos.Prelude.{none, ◌==◌, if◌then◌else◌, true, refl, arith, inl}
use hnmos.Graphics.Framebuffer.{
  Adapter, init, Framebuffer, Memory, multiboot, put_pixel, clear, color_rgb,
}
use hnmos.Graphics.Pixels.{IsMapped, Painted, put_pixel_lem}
use hnmos.Graphics.Found.{Opens, init_screen}
use hnmos.Graphics.Primitive.{fill_rect}
use hnmos.Graphics.Primitive.Filling.{rectangle, fill_rect_lem}
use hnmos.Graphics.Clear.{Filled, clear_lem}

abbrev small : Framebuffer
small = record {
  buffer = 64;
  address = 64;
  width = 3;
  height = 2;
  pitch = 8;
  bpp = 16;
  kind = 1;
  red_position = 11;
  red_mask_size = 5;
  green_position = 5;
  green_mask_size = 6;
  blue_position = 0;
  blue_mask_size = 5;
  source = multiboot;
  available = true;
}

small-IsMapped : IsMapped small
small-IsMapped = record {
  available = refl;
  depths = inl refl;
  rows = omega arith;
  fits = omega arith;
}

abbrev dark : Memory
dark = λ b. 0

put_pixel_example :
    Painted small 2 1 (color_rgb 255 128 0) dark (put_pixel small 2 1 (color_rgb 255 128 0) dark)
put_pixel_example =
    put_pixel_lem small 2 1 (color_rgb 255 128 0) dark small-IsMapped (omega arith) (omega arith)

clear_example :
    Filled small (color_rgb 15 24 36) (λ x y. true) dark (clear small (color_rgb 15 24 36) dark)
clear_example = clear_lem small (color_rgb 15 24 36) dark small-IsMapped

-- No boot loader's screen, and an adapter on the third device of the bus.
abbrev adapter : Adapter
adapter = record {
  bga_id = 0xB0C5;
  read_config = λ device offset.
      if device == 2
      then (if offset == 0x10 then 0xFD000008 else (if offset == 8 then 0x03000002 else 0x11111234))
      else 0xFFFFFFFF;
}

init_screen_example : Opens none adapter small (init none adapter small)
init_screen_example = init_screen none adapter small

-- A rectangle that reaches past the screen's edge and, in its width, past 2 ^ 32.
fill_rect_example :
    Filled small 255 (rectangle 1 1 4294967295 5) dark (fill_rect small 1 1 4294967295 5 255 dark)
fill_rect_example =
    fill_rect_lem small 1 1 4294967295 5 255 dark small-IsMapped (omega arith) (omega arith)
      (omega arith) (omega arith)
