-- ===== src/Sync.antt =====
-- The synchronisation layer, kernel01/kernel/sync/system_sync.c, with the lock and the interrupt flag
-- of sync_asm.s: on the one processor a lock that is held is waited for without an end, which is
-- `none`. The barriers leave no trace in the state.
pub mod Fences
pub mod Tests
use hnmos.Prelude.{
  ℕ, ◌+◌, Bool, true, false, not, ◌&&◌, Option, none, some, ◌==◌, if◌then◌else◌, add32,
}
use hnmos.Pmm.{Pmm}
use hnmos.Heap.{Heap}
use hnmos.Graphics.Framebuffer.{Framebuffer}

-- `struct hnm_sync_snapshot`
pub record Snapshot : Type 0 where
  pub sequence : ℕ
  pub state_flags : ℕ
  pub cpu_fence_count : ℕ
  pub ram_fence_count : ℕ
  pub gpu_fence_count : ℕ
  pub pmm_free_pages : ℕ
  pub heap_used_bytes : ℕ
  pub framebuffer_width : ℕ
  pub framebuffer_height : ℕ
  pub framebuffer_bpp : ℕ

-- The static variables, with the processor's interrupt flag.
pub record Sync : Type 0 where
  pub last : Snapshot
  pub lock : ℕ
  pub ready : Bool
  pub interrupts : Bool

-- What the layer looks at.
pub record Machine : Type 0 where
  pub pmm : Pmm
  pub heap : Heap
  pub fb : Framebuffer

-- The interrupt flag before, and the state with the lock held.
unfoldable pub enter_critical : Sync → Option (Bool × Sync)
enter_critical s =
    if s.lock == 0 then some (s.interrupts, record s { interrupts = false; lock = 1 }) else none

unfoldable pub leave_critical : Bool → Sync → Sync
leave_critical irq_flags s = record s { lock = 0; interrupts = irq_flags }

-- A body between the two.
abbrev pub critical : (Sync → Sync) → Sync → Option Sync
critical body s = elim (enter_critical s) [
  | none ↦ none
  | some entered ↦ some (leave_critical entered.0 (body entered.1))
]

abbrev pub memory_ready : Machine → Bool
memory_ready m = m.pmm.stats.initialized && m.heap.stats.initialized

-- The flags are bits of their own.
unfoldable pub current_flags : Machine → ℕ
current_flags m = 17 + ((if memory_ready m then 2 else 0) + (if m.fb.available then 4 else 0))

unfoldable pub cpu_ram_fence_locked : Sync → Sync
cpu_ram_fence_locked s = record s {
  last = record (s.last) {
    cpu_fence_count = add32 s.last.cpu_fence_count 1;
    ram_fence_count = add32 s.last.ram_fence_count 1;
  };
}

unfoldable pub gpu_fence_locked : Machine → Sync → Sync
gpu_fence_locked m s =
    if not m.fb.available
    then s
    else record s { last = record (s.last) { gpu_fence_count = add32 s.last.gpu_fence_count 1 } }

unfoldable pub full_fence_locked : Machine → Sync → Sync
full_fence_locked m s =
    let fenced = gpu_fence_locked m (cpu_ram_fence_locked s) in
    record fenced { last = record (fenced.last) { sequence = add32 fenced.last.sequence 1 } }

-- `hnm_sync_capture_locked`; the snapshot that is copied out is the last one.
unfoldable pub capture_locked : Machine → Sync → Sync
capture_locked m s = record s {
  last = record (s.last) {
    state_flags = current_flags m;
    pmm_free_pages = if m.pmm.stats.initialized then m.pmm.stats.free_pages else 0;
    heap_used_bytes = if m.heap.stats.initialized then m.heap.stats.used_bytes else 0;
    framebuffer_width = if m.fb.available then m.fb.width else 0;
    framebuffer_height = if m.fb.available then m.fb.height else 0;
    framebuffer_bpp = if m.fb.available then m.fb.bpp else 0;
  };
}

abbrev blank_snapshot : ℕ → Snapshot
blank_snapshot flags = record {
  sequence = 0;
  state_flags = flags;
  cpu_fence_count = 0;
  ram_fence_count = 0;
  gpu_fence_count = 0;
  pmm_free_pages = 0;
  heap_used_bytes = 0;
  framebuffer_width = 0;
  framebuffer_height = 0;
  framebuffer_bpp = 0;
}

unfoldable pub init : Machine → Sync → Option Sync
init m s =
    critical
      (λ t.
        capture_locked m (
          full_fence_locked m (record t { last = blank_snapshot (current_flags m); ready = true })))
      s

unfoldable pub cpu_ram_fence : Sync → Option Sync
cpu_ram_fence s = critical cpu_ram_fence_locked s

unfoldable pub gpu_fence : Machine → Sync → Option Sync
gpu_fence m s = critical (gpu_fence_locked m) s

unfoldable pub full_fence : Machine → Sync → Option Sync
full_fence m s = critical (full_fence_locked m) s

unfoldable pub capture : Machine → Sync → Option Sync
capture m s = critical (capture_locked m) s

unfoldable pub checkpoint : Machine → Sync → Option Sync
checkpoint m s = critical (λ t. capture_locked m (full_fence_locked m t)) s

-- `hnm_sync_is_ready`, with the state after it.
unfoldable pub is_ready : Sync → Option (Bool × Sync)
is_ready s = elim (enter_critical s) [
  | none ↦ none
  | some entered ↦ some (entered.1.ready, leave_critical entered.0 entered.1)
]
