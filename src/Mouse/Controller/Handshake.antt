-- ===== src/Mouse/Controller/Handshake.antt =====
-- What the start of the mouse writes to the controller, whatever the ports answer.
use hnmos.Prelude.{
  ℕ, zero, suc, ◌+◌, ◌/◌, ◌≡◌, refl, ap, ◌∙◌, Bool, true, false, Option, none, some, List, [], ◌∷◌,
  Bool-cases, inl, inr, arith, drop, if◌then◌else◌,
}
use mathlib.Core.Path.{subst⁻¹}
use hnmos.Graphics.Framebuffer.{Framebuffer}
use hnmos.Mouse.{Mouse, has_bit}
use hnmos.Mouse.Controller.{
  Ports, and_then, outb, data_port, command_port, input_clear_from, wait_input_clear,
  output_full_from, wait_output_full, flush_from, flush_output, write, write_controller_command,
  read_config, write_config, write_command, acknowledged, ask_config, put_data, get_answer,
  configure, enabled_config, handshake, init,
}
use hnmos.Mouse.Controller.Sent.{Sent, Sent-and_then, Sent-from, nothing-Sent}

module _ (inb : ℕ → ℕ → ℕ) where
  input_clear_from-written : (n : ℕ) (p : Ports) → (input_clear_from inb n p).1.written ≡ p.written
  unfolding input_clear_from
  input_clear_from-written zero p = refl
  input_clear_from-written (suc n) p = elim (Bool-cases (has_bit (inb p.reads command_port) 1)) [
    | inl e ↦
        rw (e, input_clear_from) (input_clear_from-written n (record p { reads = p.reads + 1 }))
    | inr e ↦ rw (e, input_clear_from) refl
  ]

  output_full_from-written : (n : ℕ) (p : Ports) → (output_full_from inb n p).1.written ≡ p.written
  unfolding output_full_from
  output_full_from-written zero p = refl
  output_full_from-written (suc n) p = elim (Bool-cases (has_bit (inb p.reads command_port) 0)) [
    | inl e ↦ rw (e, output_full_from) refl
    | inr e ↦
        rw (e, output_full_from) (output_full_from-written n (record p { reads = p.reads + 1 }))
  ]

  flush_from-written : (n : ℕ) (p : Ports) → (flush_from inb n p).written ≡ p.written
  unfolding flush_from
  flush_from-written zero p = refl
  flush_from-written (suc n) p = elim (Bool-cases (has_bit (inb p.reads command_port) 0)) [
    | inl e ↦ rw (e, flush_from) (flush_from-written n (record p { reads = p.reads + 1 + 1 }))
    | inr e ↦ rw (e, flush_from) refl
  ]

  clear-Sent : (p : Ports) → Sent [] p (wait_input_clear inb p)
  unfolding wait_input_clear
  clear-Sent p = nothing-Sent p _ (input_clear_from-written 100000 p)

  full-Sent : (p : Ports) → Sent [] p (wait_output_full inb p)
  unfolding wait_output_full
  full-Sent p = nothing-Sent p _ (output_full_from-written 100000 p)

  write-Sent : (port value : ℕ) (p : Ports) → Sent ((port, value) ∷ []) p (true, outb port value p)
  unfolding outb
  write-Sent port value p = record {
    done = (port, value) ∷ [];
    missing = [];
    parts = refl;
    written = refl;
    whole = λ e. refl;
  }

  command-Sent :
      (command : ℕ) (p : Ports)
      → Sent ((command_port, command) ∷ []) p (write_controller_command inb command p)
  unfolding write_controller_command
  command-Sent command p =
      Sent-and_then (wait_input_clear inb) (write inb command_port command) [] _ p (clear-Sent p)
        (write-Sent command_port command (wait_input_clear inb p).1)

  -- A byte for the data port, once the controller is ready for it.
  data-Sent :
      (value : ℕ) (p : Ports)
      → Sent
          ((data_port, value) ∷ [])
          p
          (and_then (wait_input_clear inb) (write inb data_port value) p)
  data-Sent value p =
      Sent-and_then (wait_input_clear inb) (write inb data_port value) [] _ p (clear-Sent p)
        (write-Sent data_port value (wait_input_clear inb p).1)

  write_config-Sent :
      (config : ℕ) (p : Ports)
      → Sent ((command_port, 0x60) ∷ (data_port, config) ∷ []) p (write_config inb config p)
  unfolding write_config
  write_config-Sent config p =
      Sent-and_then (write_controller_command inb 0x60) (put_data inb config)
        ((command_port, 0x60) ∷ []) _ p (command-Sent 0x60 p)
        (data-Sent config (write_controller_command inb 0x60 p).1)

  write_command-Sent :
      (command : ℕ) (p : Ports)
      → Sent ((command_port, 0xD4) ∷ (data_port, command) ∷ []) p (write_command inb command p)
  unfolding write_command
  write_command-Sent command p =
      let p1 = (write_controller_command inb 0xD4 p).1 in
      let p2 = (put_data inb command p1).1 in
      Sent-and_then (write_controller_command inb 0xD4)
        (and_then (put_data inb command) (get_answer inb)) ((command_port, 0xD4) ∷ []) _ p
        (command-Sent 0xD4 p)
        (Sent-and_then (put_data inb command) (get_answer inb) ((data_port, command) ∷ []) [] p1
          (data-Sent command p1)
          (Sent-and_then (wait_output_full inb) (acknowledged inb) [] [] p2 (full-Sent p2)
            (nothing-Sent (wait_output_full inb p2).1 _ refl)))

  -- The bytes that set the mouse up, with the configuration that the controller reported.
  abbrev pub setup : ℕ → List (ℕ × ℕ)
  setup config =
      (command_port, 0xA8)
      ∷ (command_port, 0x20)
      ∷ (command_port, 0x60)
      ∷ (data_port, enabled_config inb config)
      ∷ (command_port, 0xD4)
      ∷ (data_port, 0xF6)
      ∷ (command_port, 0xD4)
      ∷ (data_port, 0xF4)
      ∷ []

  commands-Sent :
      (config : ℕ) (p : Ports)
      → Sent (drop 2 (setup config)) p (
          and_then
            (write_config inb (enabled_config inb config))
            (and_then (write_command inb 0xF6) (write_command inb 0xF4))
            p)
  commands-Sent config p =
      let c = enabled_config inb config in
      let p1 = (write_config inb c p).1 in
      Sent-and_then (write_config inb c)
        (and_then (write_command inb 0xF6) (write_command inb 0xF4))
        ((command_port, 0x60) ∷ (data_port, c) ∷ []) _ p (write_config-Sent c p)
        (Sent-and_then (write_command inb 0xF6) (write_command inb 0xF4)
          ((command_port, 0xD4) ∷ (data_port, 0xF6) ∷ []) _ p1 (write_command-Sent 0xF6 p1)
          (write_command-Sent 0xF4 (write_command inb 0xF6 p1).1))

  ask_config-Sent : (p : Ports) → Sent ((command_port, 0x20) ∷ []) p (ask_config inb p)
  unfolding ask_config
  ask_config-Sent p =
      Sent-and_then (write_controller_command inb 0x20) (wait_output_full inb)
        ((command_port, 0x20) ∷ []) [] p (command-Sent 0x20 p)
        (full-Sent (write_controller_command inb 0x20 p).1)

  -- What follows the answer with the configuration.
  set_up : Ports → Bool × Ports
  set_up p =
      and_then (write_config inb (enabled_config inb (inb p.reads data_port)))
        (and_then (write_command inb 0xF6) (write_command inb 0xF4))
        (record p { reads = p.reads + 1 })

  read_config-asked :
      (p : Ports)
      → read_config inb p ≡ (
          if (ask_config inb p).0
          then (
            some (inb (ask_config inb p).1.reads data_port),
            record ((ask_config inb p).1) { reads = (ask_config inb p).1.reads + 1 },
          )
          else (none, (ask_config inb p).1))
  unfolding read_config
  read_config-asked p = refl

  -- What the middle of the start does with what it read.
  with_config : Option ℕ × Ports → Bool × Ports
  with_config (none, p) = (false, p)
  with_config (some config, p) =
      and_then (write_config inb (enabled_config inb config))
        (and_then (write_command inb 0xF6) (write_command inb 0xF4)) p

  configure-read : (p : Ports) → configure inb p ≡ with_config (read_config inb p)
  unfolding configure with_config
  configure-read p =
      elim (read_config inb p).0
        as (λ o.
          elim o [
            | none ↦ (false, (read_config inb p).1)
            | some config ↦
                and_then (write_config inb (enabled_config inb config))
                  (and_then (write_command inb 0xF6) (write_command inb 0xF4)) (read_config inb p).1
          ]
          ≡ with_config (o, (read_config inb p).1)) [ none ↦ refl | some config ↦ refl ]

  configure_lem : (p : Ports) → configure inb p ≡ and_then (ask_config inb) set_up p
  unfolding with_config set_up
  configure_lem p =
      configure-read p
      ∙ ap with_config (read_config-asked p)
      ∙ elim (Bool-cases (ask_config inb p).0) [
        | inl e ↦ rw (e, and_then) refl
        | inr e ↦ rw (e, and_then) refl
      ]

  configure-Sent : (p : Ports) → (config : ℕ) × Sent (drop 1 (setup config)) p (configure inb p)
  unfolding set_up
  configure-Sent p =
      let p1 = (ask_config inb p).1 in
      let config = inb p1.reads data_port in
      let p2 : Ports = record p1 { reads = p1.reads + 1 } in
      (
        config,
        subst⁻¹ (Sent (drop 1 (setup config)) p) (configure_lem p) (
            Sent-and_then (ask_config inb) set_up ((command_port, 0x20) ∷ [])
              (drop 2 (setup config)) p (ask_config-Sent p)
              (Sent-from (drop 2 (setup config)) p2 p1 _ refl (commands-Sent config p2))),
      )

  handshake-Sent : (p : Ports) → (config : ℕ) × Sent (setup config) p (handshake inb p)
  unfolding handshake
  handshake-Sent p =
      let (config, s) = configure-Sent (write_controller_command inb 0xA8 p).1 in
      (
        config,
        Sent-and_then (write_controller_command inb 0xA8) (configure inb)
            ((command_port, 0xA8) ∷ []) (drop 1 (setup config)) p (command-Sent 0xA8 p) s,
      )

  -- The mouse and the ports after a start.
  pub record Started (fb : Framebuffer) (p : Ports) (r : Bool × Mouse × Ports) : Type 0 where
    pub ready : r.1.ready ≡ r.0
    pub clean : r.1.dirty ≡ false
    pub no_bytes : r.1.packet_index ≡ 0
    pub released :
        (r.1.left_button ≡ false) × (r.1.right_button ≡ false) × (r.1.middle_button ≡ false)
    pub no_screen : fb.available ≡ false → (r.0 ≡ false) × (r.2 ≡ p)
    pub centred : fb.available ≡ true → (r.1.x ≡ fb.width / 2) × (r.1.y ≡ fb.height / 2)
    pub sent : fb.available ≡ true → (config : ℕ) × Sent (setup config) p (r.0, r.2)

  -- Whatever the ports answer, the start of the mouse leaves the mouse ready exactly if its result
  -- is true, with no button down and no byte of a packet. Without a screen the result is false and
  -- no port is touched. With one the pointer is at its centre, and what was written to the ports is
  -- the beginning of the set-up's eight bytes with some configuration, and all of them if the result
  -- is true.
  pub init_starts : (fb : Framebuffer) (m : Mouse) (p : Ports) → Started fb p (init inb fb (m, p))
  unfolding init flush_output
  init_starts fb m p = elim (Bool-cases fb.available) [
    | inl e ↦
        let (config, s) = handshake-Sent (flush_from inb 64 p) in
        rw (e, init)
          (record {
            ready = refl;
            clean = refl;
            no_bytes = refl;
            released = (refl, refl, refl);
            no_screen = λ f. ground (arith, f);
            centred = λ f. (refl, refl);
            sent = λ f. (
              config,
              Sent-from (setup config) (flush_from inb 64 p) p _ (flush_from-written 64 p) s,
            );
          })
    | inr e ↦
        rw (e, init)
          (record {
            ready = refl;
            clean = refl;
            no_bytes = refl;
            released = (refl, refl, refl);
            no_screen = λ f. (refl, refl);
            centred = λ f. ground (arith, f);
            sent = λ f. ground (arith, f);
          })
  ]
