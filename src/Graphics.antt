-- ===== src/Graphics.antt =====
-- The graphics under kernel01/kernel/graphics/.
pub mod Framebuffer
pub mod Pixels
pub mod Bus
pub mod Found
pub mod Clear
pub mod Primitive
mod Tests
