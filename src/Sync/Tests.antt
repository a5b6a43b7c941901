-- ===== src/Sync/Tests.antt =====
-- The layer on a machine with eight pages, no heap yet and a small screen.
use hnmos.Prelude.{refl, true, false, arith}
use hnmos.Pmm.Tests.{small}
use hnmos.Heap.{Heap}
use hnmos.Graphics.Framebuffer.{Framebuffer, bga}
use hnmos.Sync.{Sync, Machine, cpu_ram_fence, gpu_fence, full_fence, capture, checkpoint}
use hnmos.Sync.Fences.{IsFree, Ends, Counted, Shows, gpu_count, fences_lem}

abbrev no_heap : Heap
no_heap = record {
  stats = record {
    total_bytes = 0;
    used_bytes = 0;
    page_count = 0;
    allocation_count = 0;
    failed_allocations = 0;
    initialized = false;
    supports_free = false;
  };
  current_page = 0;
  current_offset = 0;
}

abbrev screen : Framebuffer
screen = record {
  buffer = 64;
  address = 64;
  width = 3;
  height = 2;
  pitch = 12;
  bpp = 32;
  kind = 1;
  red_position = 16;
  red_mask_size = 8;
  green_position = 8;
  green_mask_size = 8;
  blue_position = 0;
  blue_mask_size = 8;
  source = bga;
  available = true;
}

abbrev pub machine : Machine
machine = record { pmm = small; heap = no_heap; fb = screen }

abbrev pub counted : Sync
counted = record {
  last = record {
    sequence = 7;
    state_flags = 17;
    cpu_fence_count = 4294967295;
    ram_fence_count = 4294967295;
    gpu_fence_count = 5;
    pmm_free_pages = 0;
    heap_used_bytes = 0;
    framebuffer_width = 0;
    framebuffer_height = 0;
    framebuffer_bpp = 0;
  };
  lock = 0;
  ready = true;
  interrupts = true;
}

pub counted-IsFree : IsFree counted
counted-IsFree = record {
  lock = refl;
  cpu = omega arith;
  ram = omega arith;
  gpu = omega arith;
  sequence = omega arith;
}

fences_example :
    Ends (Counted 1 0 0 counted.last) counted (cpu_ram_fence counted)
    × Ends (Counted 0 (gpu_count machine) 0 counted.last) counted (gpu_fence machine counted)
    × Ends (Counted 1 (gpu_count machine) 1 counted.last) counted (full_fence machine counted)
    × Ends
        (λ t. Counted 0 0 0 counted.last t × Shows machine t.last)
        counted
        (capture machine counted)
    × Ends
        (λ t. Counted 1 (gpu_count machine) 1 counted.last t × Shows machine t.last)
        counted
        (checkpoint machine counted)
fences_example = fences_lem machine counted counted-IsFree
