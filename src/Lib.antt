-- ===== src/Lib.antt =====
-- The HNMos kernel: models of the parts of kernel01 that keep state and take decisions, and what
-- is proved of them.
--
-- Pmm          kernel01/kernel/memory/pmm.c. `Pmm` holds the static variables: the bitmap, the
--              statistics and where the search goes on. `mark_page_free`, `mark_range_free`,
--              `alloc_page` and so on are hnm_pmm_mark_page_free and its neighbours; `Pmm.Boot` has
--              hnm_pmm_init. Bits, Count and Inv carry the bitmap and the invariant.
-- Heap         kernel01/kernel/memory/heap.c, hnm_kmalloc over the pages of Pmm.
-- Task         kernel01/kernel/task/task.c, the registry of eight slots.
-- Scheduler    kernel01/kernel/task/scheduler.c over Task; a yield is `yield_task`.
-- Ai.Policy    kernel01/kernel/ai/ai_workspace_policy.c, what an assistant may do on which path.
-- Fs.Ramfs     kernel01/kernel/fs/ramfs.c; Fs is kernel01/kernel/fs/vfs.c, which asks Ai.Policy
--              before a draft is written.
-- Interface.Events  kernel01/kernel/interface/events.c, the ring of input events.
-- Interface.Launcher  kernel01/kernel/interface/launcher.c, with the hit test of widgets/button.c
--              and widgets/rect.c; its handlers answer what they ask the router for.
-- Interface.Router  kernel01/kernel/interface/router.c, which gives the events to the screens, as a
--              state with the calls that it makes of them, the latest first.
-- Keyboard     kernel01/drivers/keyboard.c, which pushes events into that ring; Keyboard.Layout has
--              the rows of keys that its table and its shift are compared with.
-- Mouse        kernel01/drivers/mouse.c, which does too; Mouse.Controller sets the device up.
-- Graphics.Framebuffer  kernel01/kernel/graphics/framebuffer.c and color.c: the screen, and the
--              bytes of its pixels in a memory that is a function from addresses to bytes;
--              Graphics.Bus is about its search for the display adapter.
-- Graphics.Primitive  kernel01/kernel/graphics/primitive.c, rectangles over that screen.
-- Sync         kernel01/kernel/sync/system_sync.c, the fences and snapshots under a lock, of the state
--              of Pmm, Heap and Graphics.Framebuffer.
-- Ai.Task      kernel01/kernel/ai/ai_task.c, the task that a provider works on.
-- Ai.Stub      kernel01/kernel/ai/ai_stub_provider.c, the local provider.
-- Ai.Transport kernel01/kernel/ai/ai_serial_transport.c, the code and the frames of the serial line;
--              Ai.Transport.Receive has the ring of received characters, the lines and the answers.
-- Ai.Serial    kernel01/kernel/ai/ai_serial_provider.c, the provider behind that line.
-- Ai.Bridge    kernel01/kernel/ai/ai_bridge.c, which gives each task to one of the two providers.
-- Ai.Assembly  kernel01/kernel/ai/ai_assembly.c and ai_machine.c, the program for a task, with the
--              snapshots of Sync.
-- Ai.Session   kernel01/kernel/ai/ai_session.c, the sign-in, which sends its key by Ai.Transport.
-- Prelude      shared names, Boolean tests, C arrays as lists, 32-bit arithmetic; Prelude.Buffer
--              has C strings and hnm_ai_copy_text.
--
-- A static variable is a field of a record that each operation takes and returns; `u32` arithmetic
-- is written with its wrap. A null pointer is `none`, or 0 where addresses are numbers. Flags that
-- are `int`s of 0 or 1 are Booleans. A C string is the list of its characters before the NUL. What
-- the boot loader left in memory, the linker's `kernel_end` and what a device's port answers are
-- parameters.
--
-- Bounds: the range loops of Pmm get 262144 rounds, the number of pages below 1 GiB, where the
-- loop's end is clipped; the walks over the memory map get one round for each of its bytes and one
-- more, since each entry moves on by at least four. The polling of the serial line gets
-- 4096 rounds, one more than the characters that its ring can hold. The other loops recurse on their
-- data or on the number of rounds that the source writes.
--
-- Not modelled: the log, the drawing of text and the cursor, the screens but for the launcher, the
-- text console, interrupts and start code, and the field of the bridge that keeps the program of
-- the last task. They draw, talk to devices, or only combine other parts. A halt of the kernel is a
-- call in the router's record; what would follow it is not cut off there.
pub mod Prelude
pub mod Pmm
pub mod Heap
pub mod Task
pub mod Scheduler
pub mod Ai
pub mod Fs
pub mod Interface
pub mod Graphics
pub mod Keyboard
pub mod Mouse
pub mod Sync
