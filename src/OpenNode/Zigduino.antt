-- ===== src/OpenNode/Zigduino.antt =====
-- gateway_code/open_nodes/node_zigduino.py: a Zigduino r2, which a serial port resets when it drops
-- its DTR line.
use iot_lab_gateway.Prelude.{
  String, Bool, true, false, not, Option, none, some, [], ◌∷◌, if◌then◌else◌,
}
use iot_lab_gateway.Prelude.Int.{ℤ, pos, ◌==ℤ◌}
use iot_lab_gateway.Effects.{
  World, Action, pure, raise, on, perform, total, try_except, ◌>>=◌, ◌>>◌, sleep, serial_connect,
  serial_close, set_dtr, clear_hangup, port_opened, serial_failed, os_refused, os_error,
  termios_error,
}
use iot_lab_gateway.Common.{wait_tty, wait_no_tty, tty_detect_time, path_or}
use iot_lab_gateway.OpenOcd.{attempted}
use iot_lab_gateway.Avrdude
use iot_lab_gateway.Redirection
use iot_lab_gateway.OpenNode.{OpenNode}
use iot_lab_gateway.OpenNode.Leonardo.{AvrNode, avrdude_part, redirection_part}

abbrev pub zigduino_tty : String
zigduino_tty = "/dev/iotlab/ttyON_ZIGDUINO"

-- `NodeZigduino.__init__`
unfoldable pub init : AvrNode
init = record {
  serial_redirection = Redirection.serial_redirection zigduino_tty 57600;
  avrdude = record {
    tty = zigduino_tty;
    baudrate = 57600;
    model = "atmega128rfa1";
    programmer = "arduino";
    timeout = 100;
  };
}

-- `FW_IDLE`, a path among the static files, is an argument.
module _ (world : World) (fw_idle : String) where
  -- `serial.Serial(TTY, BAUDRATE)` where a SerialException, and no OSError, returns 1.
  abbrev pub with_port : Action AvrNode ℤ → Action AvrNode ℤ
  with_port next = do
    opening ← perform world (serial_connect zigduino_tty 57600)
    elim opening [
      | port_opened ↦ next
      | serial_failed ↦ pure (pos 1)
      | os_refused n ↦ raise (os_error n)
    ]

  unfoldable pub disable_dtr : Action AvrNode ℤ
  disable_dtr = with_port (do
    cleared ← perform world (clear_hangup zigduino_tty)
    elim cleared [ none ↦ raise termios_error | some outcome ↦ attempted outcome >> pure (pos 0) ])

  -- `do_flash(firmware_path, binary, offset, redirect)`
  unfoldable pub do_flash : Option String → Bool → ℤ → Bool → Action AvrNode ℤ
  unfolding disable_dtr
  do_flash firmware_path binary offset redirect =
      if binary
      then pure (pos 1)
      else if not (offset ==ℤ pos 0)
      then pure (pos 1)
      else wait_no_tty world zigduino_tty tty_detect_time
        >> total (
            wait_tty world zigduino_tty tty_detect_time
            ∷ (if redirect then on redirection_part (Redirection.stop world) else pure (pos 0))
            ∷ on avrdude_part (Avrdude.flash world (path_or firmware_path fw_idle))
            ∷ wait_tty world zigduino_tty 10
            ∷ (if redirect then disable_dtr else pure (pos 0))
            ∷ (if redirect then on redirection_part (Redirection.start world) else pure (pos 0))
            ∷ [])

  unfoldable pub flash : Option String → Bool → ℤ → Action AvrNode ℤ
  unfolding do_flash
  flash firmware_path binary offset = do_flash firmware_path binary offset true

  -- The DTR line is dropped and raised. An OSError on the way is ignored.
  unfoldable pub reset : Action AvrNode ℤ
  reset = with_port (
      try_except
        (do
          low ← perform world (set_dtr zigduino_tty false)
          attempted low
          perform world (sleep 5)
          high ← perform world (set_dtr zigduino_tty true)
          attempted high
          perform world (sleep 5)
          perform world (serial_close zigduino_tty))
        (λ e. elim e [ os_error n ↦ pure tt | other ↦ raise other ])
      >> total (wait_tty world zigduino_tty 10 ∷ []))

  unfoldable pub setup : Option String → Action AvrNode ℤ
  unfolding do_flash disable_dtr
  setup firmware_path =
      wait_no_tty world zigduino_tty tty_detect_time
      >> total (
          wait_tty world zigduino_tty tty_detect_time
          ∷ do_flash firmware_path false (pos 0) false
          ∷ disable_dtr
          ∷ on redirection_part (Redirection.start world)
          ∷ [])

  unfoldable pub teardown : Action AvrNode ℤ
  unfolding do_flash
  teardown =
      wait_no_tty world zigduino_tty tty_detect_time
      >> total (
          wait_tty world zigduino_tty tty_detect_time
          ∷ on redirection_part (Redirection.stop world)
          ∷ wait_tty world zigduino_tty 10
          ∷ do_flash none false (pos 0) false
          ∷ [])

  -- The class as the manager uses it.
  abbrev pub open_node : OpenNode AvrNode
  open_node = record {
    type_name = "zigduino";
    tty = zigduino_tty;
    alim = "5V";
    elf_target = some ("ELFCLASS32", "EM_AVR");
    setup = setup;
    teardown = teardown;
    status = pure (pos 0);
    flash = some flash;
    reset = some reset;
    debug_start = none;
    debug_stop = none;
  }
