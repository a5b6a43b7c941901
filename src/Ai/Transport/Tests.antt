-- ===== src/Ai/Transport/Tests.antt =====
-- The ring of received characters, near the end of its slots.
use hnmos.Prelude.{ℕ, arith, replicate, length-replicate}
use hnmos.Prelude.Buffer.{codes}
use hnmos.Ai.Transport.Receive.{Rx, rx_capacity, capture_rx}
use hnmos.Ai.Transport.Receive.Fifo.{IsValid, Captured, capture_rx_lem}

abbrev quiet : Rx
quiet = record { chars = replicate rx_capacity 0; head = 4090; tail = 4090; dropped = 0 }

quiet-IsValid : IsValid quiet
quiet-IsValid = record {
  slots = length-replicate {A = ℕ} rx_capacity 0;
  head_in = omega arith;
  tail_in = omega arith;
}

capture_rx_example : Captured (codes "HNAI1|RES|") quiet (capture_rx (codes "HNAI1|RES|") quiet)
capture_rx_example = capture_rx_lem (codes "HNAI1|RES|") quiet quiet-IsValid (omega arith)
