-- ===== src/Sync/Fences.antt =====
-- The operations end, give the lock and the interrupts back, and count their fences.
use hnmos.Prelude.{
  ℕ, ◌^◌, ◌<◌, ◌≡◌, refl, true, false, Option, some, ◌==◌, if◌then◌else◌, arith, add32,
}
use hnmos.Sync.{
  Snapshot, Sync, Machine, critical, enter_critical, leave_critical, current_flags,
  cpu_ram_fence_locked, gpu_fence_locked, full_fence_locked, capture_locked, cpu_ram_fence,
  gpu_fence, full_fence, capture, checkpoint,
}

-- An operation that ends with the lock free and the interrupts as they were.
pub record Ends (P : Sync → Type 0) (before : Sync) (r : Option Sync) : Type 0 where
  pub after : Sync
  pub result : r ≡ some after
  pub unlocked : after.lock ≡ 0
  pub interrupts : after.interrupts ≡ before.interrupts
  pub effect : P after

-- The counts after some fences, and the number of full ones.
abbrev pub Counted : ℕ → ℕ → ℕ → Snapshot → Sync → Type 0
Counted fences gpu full before s =
    (s.last.cpu_fence_count ≡ add32 before.cpu_fence_count fences)
    × (s.last.ram_fence_count ≡ add32 before.ram_fence_count fences)
    × (s.last.gpu_fence_count ≡ add32 before.gpu_fence_count gpu)
    × (s.last.sequence ≡ add32 before.sequence full)

-- The snapshot shows the machine: sizes are 0 for a part that is not there.
abbrev pub Shows : Machine → Snapshot → Type 0
Shows m s =
    (s.state_flags ≡ current_flags m)
    × (s.pmm_free_pages ≡ (if m.pmm.stats.initialized then m.pmm.stats.free_pages else 0))
    × (s.heap_used_bytes ≡ (if m.heap.stats.initialized then m.heap.stats.used_bytes else 0))
    × (s.framebuffer_width ≡ (if m.fb.available then m.fb.width else 0))
    × (s.framebuffer_height ≡ (if m.fb.available then m.fb.height else 0))
    × (s.framebuffer_bpp ≡ (if m.fb.available then m.fb.bpp else 0))

-- The counts are 32-bit numbers.
pub record IsFree (s : Sync) : Type 0 where
  pub lock : s.lock ≡ 0
  pub cpu : s.last.cpu_fence_count < 2 ^ 32
  pub ram : s.last.ram_fence_count < 2 ^ 32
  pub gpu : s.last.gpu_fence_count < 2 ^ 32
  pub sequence : s.last.sequence < 2 ^ 32

critical-Ends :
    (P : Sync → Type 0) (body : Sync → Sync) (s : Sync)
    → s.lock ≡ 0
    → P (leave_critical s.interrupts (body (record s { interrupts = false; lock = 1 })))
    → Ends P s (critical body s)
unfolding enter_critical leave_critical
critical-Ends P body s free p =
    let open_ : (s.lock == 0) ≡ true = ground arith in
    record {
      after = leave_critical s.interrupts (body (record s { interrupts = false; lock = 1 }));
      result = rw (open_, critical, enter_critical) refl;
      unlocked = refl;
      interrupts = refl;
      effect = p;
    }

abbrev pub gpu_count : Machine → ℕ
gpu_count m = if m.fb.available then 1 else 0

-- Whatever the machine, an operation on a free lock, with counts below 2 ^ 32, ends and leaves the
-- lock free and the interrupts as they were: the fence of processor and memory counts one of each,
-- the fence of the framebuffer one if there is a framebuffer, the full fence both and one in the
-- sequence, all modulo 2 ^ 32; a capture counts nothing and a checkpoint a full fence, and the
-- snapshot of both shows the machine.
pub fences_lem :
    (m : Machine) (s : Sync)
    → IsFree s
    → Ends (Counted 1 0 0 s.last) s (cpu_ram_fence s)
      × Ends (Counted 0 (gpu_count m) 0 s.last) s (gpu_fence m s)
      × Ends (Counted 1 (gpu_count m) 1 s.last) s (full_fence m s)
      × Ends (λ t. Counted 0 0 0 s.last t × Shows m t.last) s (capture m s)
      × Ends (λ t. Counted 1 (gpu_count m) 1 s.last t × Shows m t.last) s (checkpoint m s)
unfolding cpu_ram_fence gpu_fence full_fence capture checkpoint cpu_ram_fence_locked
    gpu_fence_locked full_fence_locked capture_locked leave_critical
fences_lem m s v = (
  critical-Ends _ cpu_ram_fence_locked s v.lock
      (refl, refl, omega (arith, v.gpu), omega (arith, v.sequence)),
  critical-Ends _ (gpu_fence_locked m) s v.lock (ground (arith, v.cpu, v.ram, v.gpu, v.sequence)),
  critical-Ends _ (full_fence_locked m) s v.lock (ground (arith, v.cpu, v.ram, v.gpu, v.sequence)),
  critical-Ends _ (capture_locked m) s v.lock (
    (omega (arith, v.cpu), omega (arith, v.ram), omega (arith, v.gpu), omega (arith, v.sequence)),
    (refl, refl, refl, refl, refl, refl),
  ),
  critical-Ends _ (λ t. capture_locked m (full_fence_locked m t)) s v.lock
      (ground (arith, v.cpu, v.ram, v.gpu, v.sequence), (refl, refl, refl, refl, refl, refl)),
)
