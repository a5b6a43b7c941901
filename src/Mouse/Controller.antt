-- ===== src/Mouse/Controller.antt =====
-- The PS/2 controller as kernel01/drivers/mouse.c talks to it, and the start of the mouse. What a
-- port answers at each reading is a parameter; the bytes that are written are kept in their order.
pub mod Sent
pub mod Handshake
use hnmos.Prelude.{
  ℕ, zero, suc, ◌+◌, ◌-◌, ◌/◌, ◌%◌, ◌^◌, Bool, true, false, not, Option, none, some, List, [], ◌∷◌,
  ◌++◌, ◌==◌, if◌then◌else◌,
}
use hnmos.Graphics.Framebuffer.{Framebuffer}
use hnmos.Mouse.{Mouse, has_bit}

abbrev pub data_port : ℕ
data_port = 0x60

abbrev pub command_port : ℕ
command_port = 0x64

-- How often a port was read, and what was written to which port.
pub record Ports : Type 0 where
  pub reads : ℕ
  pub written : List (ℕ × ℕ)

unfoldable pub outb : ℕ → ℕ → Ports → Ports
outb port value p = record p { written = p.written ++ (port, value) ∷ [] }

-- `if (!f()) { return 0; }`, then the rest.
abbrev pub and_then : (Ports → Bool × Ports) → (Ports → Bool × Ports) → Ports → Bool × Ports
and_then first rest p = let (ok, p') = first p in elim ok [ true ↦ rest p' | false ↦ (false, p') ]

-- The n-th reading of a port answers `inb n port`.
module _ (inb : ℕ → ℕ → ℕ) where
  abbrev next_read : Ports → Ports
  next_read p = record p { reads = p.reads + 1 }

  -- The attempts that are left of `hnm_ps2_wait_input_clear`.
  unfoldable pub input_clear_from : ℕ → Ports → Bool × Ports
  input_clear_from zero p = (false, p)
  input_clear_from (suc n) p = elim (has_bit (inb p.reads command_port) 1) [
    | false ↦ (true, next_read p)
    | true ↦ input_clear_from n (next_read p)
  ]

  unfoldable pub wait_input_clear : Ports → Bool × Ports
  wait_input_clear p = input_clear_from 100000 p

  -- The attempts that are left of `hnm_ps2_wait_output_full`.
  unfoldable pub output_full_from : ℕ → Ports → Bool × Ports
  output_full_from zero p = (false, p)
  output_full_from (suc n) p = elim (has_bit (inb p.reads command_port) 0) [
    | true ↦ (true, next_read p)
    | false ↦ output_full_from n (next_read p)
  ]

  unfoldable pub wait_output_full : Ports → Bool × Ports
  wait_output_full p = output_full_from 100000 p

  -- The attempts that are left of `hnm_ps2_flush_output`, whose readings are all thrown away.
  unfoldable pub flush_from : ℕ → Ports → Ports
  flush_from zero p = p
  flush_from (suc n) p = elim (has_bit (inb p.reads command_port) 0) [
    | false ↦ next_read p
    | true ↦ flush_from n (next_read (next_read p))
  ]

  unfoldable pub flush_output : Ports → Ports
  flush_output p = flush_from 64 p

  abbrev write : ℕ → ℕ → Ports → Bool × Ports
  write port value p = (true, outb port value p)

  unfoldable pub write_controller_command : ℕ → Ports → Bool × Ports
  write_controller_command command p = and_then wait_input_clear (write command_port command) p

  -- The tests of `hnm_ps2_read_config`.
  unfoldable pub ask_config : Ports → Bool × Ports
  ask_config p = and_then (write_controller_command 0x20) wait_output_full p

  unfoldable pub read_config : Ports → Option ℕ × Ports
  read_config p =
      let (ok, p') = ask_config p in
      if ok then (some (inb p'.reads data_port), next_read p') else (none, p')

  -- `if (!hnm_ps2_wait_input_clear()) { return 0; }`, then the byte.
  abbrev pub put_data : ℕ → Ports → Bool × Ports
  put_data value p = and_then wait_input_clear (write data_port value) p

  -- The answer that `hnm_mouse_write_command` reads at the end.
  abbrev acknowledged : Ports → Bool × Ports
  acknowledged p = (inb p.reads data_port == 0xFA, next_read p)

  -- `if (!hnm_ps2_wait_output_full()) { return 0; }`, then the test of the answer.
  abbrev pub get_answer : Ports → Bool × Ports
  get_answer p = and_then wait_output_full acknowledged p

  unfoldable pub write_config : ℕ → Ports → Bool × Ports
  write_config config p = and_then (write_controller_command 0x60) (put_data config) p

  unfoldable pub write_command : ℕ → Ports → Bool × Ports
  write_command command p =
      and_then (write_controller_command 0xD4) (and_then (put_data command) get_answer) p

  -- `config |= 2; config &= ~32`
  unfoldable pub enabled_config : ℕ → ℕ
  enabled_config config =
      let with_irq = if has_bit config 1 then config else config + 2 in
      if has_bit with_irq 5 then with_irq - 32 else with_irq

  -- The middle of `hnm_mouse_init`: the configuration is read and written back, and the mouse gets
  -- its two commands.
  unfoldable pub configure : Ports → Bool × Ports
  configure p =
      let (read, p') = read_config p in
      elim read [
        | none ↦ (false, p')
        | some config ↦
            and_then (write_config (enabled_config config))
              (and_then (write_command 0xF6) (write_command 0xF4)) p'
      ]

  -- What `hnm_mouse_init` asks of the controller, from the command that enables the port on.
  unfoldable pub handshake : Ports → Bool × Ports
  handshake p = and_then (write_controller_command 0xA8) configure p

  abbrev cleared : Mouse → Mouse
  cleared m = record m {
    ready = false;
    dirty = false;
    packet_index = 0;
    left_button = false;
    right_button = false;
    middle_button = false;
  }

  -- `hnm_mouse_init`; the call of `hnm_cursor_init` at its end is not part of it.
  unfoldable pub init : Framebuffer → Mouse × Ports → Bool × Mouse × Ports
  init fb (m, p) =
      let centred : Mouse = record (cleared m) { x = fb.width / 2; y = fb.height / 2 } in
      let (ok, p') = handshake (flush_output p) in
      if not fb.available then (false, cleared m, p) else (ok, record centred { ready = ok }, p')
