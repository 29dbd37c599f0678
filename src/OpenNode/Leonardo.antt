-- ===== src/OpenNode/Leonardo.antt =====
-- gateway_code/open_nodes/node_leonardo.py: an Arduino Leonardo. Its bootloader is triggered by a
-- serial port that is opened and closed, and appears on a port of its own.
use iot_lab_gateway.Prelude.{
  ℕ, ◌+◌, String, Bool, false, not, Option, none, some, [], ◌∷◌, if◌then◌else◌,
}
use iot_lab_gateway.Prelude.Int.{ℤ, pos, ◌==ℤ◌}
use iot_lab_gateway.Effects.{World, Action, Part, pure, on, perform, total, ◌>>=◌, ◌>>◌, sleep}
use iot_lab_gateway.Common.{wait_tty, wait_no_tty, tty_detect_time, path_or}
use iot_lab_gateway.Avrdude
use iot_lab_gateway.Avrdude.{AvrDude, trigger_bootloader}
use iot_lab_gateway.Redirection
use iot_lab_gateway.Redirection.{External}
use iot_lab_gateway.OpenNode.{OpenNode}

-- `NodeLeonardo`, and in OpenNode/Zigduino `NodeZigduino`.
pub record AvrNode : Type 0 where
  pub serial_redirection : External
  pub avrdude : AvrDude

abbrev pub leonardo_tty : String
leonardo_tty = "/dev/iotlab/ttyON_LEONARDO"

abbrev pub leonardo_tty_prog : String
leonardo_tty_prog = "/dev/ttyON_LEONARDO_PROG"

-- `TTY_RESTORE_TIME`
abbrev pub tty_restore_time : ℕ
tty_restore_time = 8 + tty_detect_time

-- `NodeLeonardo.__init__`
unfoldable pub init : AvrNode
init = record {
  serial_redirection = Redirection.serial_redirection leonardo_tty 9600;
  avrdude = record {
    tty = leonardo_tty_prog;
    baudrate = 9600;
    model = "atmega32u4";
    programmer = "avr109";
    timeout = 100;
  };
}

abbrev pub avrdude_part : Part AvrNode AvrDude
avrdude_part = record { get = λ n. n.avrdude; put = λ a n. record n { avrdude = a } }

abbrev pub redirection_part : Part AvrNode External
redirection_part = record {
  get = λ n. n.serial_redirection;
  put = λ p n. record n { serial_redirection = p };
}

-- `FW_IDLE`, a path among the static files, is an argument.
module _ (world : World) (fw_idle : String) where
  -- The bootloader is triggered before the arguments are looked at.
  unfoldable pub flash : Option String → Bool → ℤ → Action AvrNode ℤ
  flash firmware_path binary offset = do
    ret ← trigger_bootloader world leonardo_tty leonardo_tty_prog 15
    if not (ret ==ℤ pos 0)
        then pure (pos 1)
        else if binary
        then pure (pos 1)
        else if not (offset ==ℤ pos 0)
        then pure (pos 1)
        else total (
            on avrdude_part (Avrdude.flash world (path_or firmware_path fw_idle))
            ∷ wait_tty world leonardo_tty tty_restore_time
            ∷ [])

  unfoldable pub reset : Action AvrNode ℤ
  reset = total (
      trigger_bootloader world leonardo_tty leonardo_tty_prog 10
      ∷ wait_tty world leonardo_tty tty_restore_time
      ∷ [])

  -- `_wait_tty_ready`
  unfoldable pub wait_tty_ready : Action AvrNode ℤ
  wait_tty_ready = do
    wait_no_tty world leonardo_tty tty_detect_time
    ret ← wait_tty world leonardo_tty tty_detect_time
    perform world (sleep 10)
    pure ret

  unfoldable pub setup : Option String → Action AvrNode ℤ
  unfolding flash wait_tty_ready
  setup firmware_path = total (
      wait_tty_ready
      ∷ flash firmware_path false (pos 0)
      ∷ on redirection_part (Redirection.start world)
      ∷ [])

  unfoldable pub teardown : Action AvrNode ℤ
  unfolding flash wait_tty_ready
  teardown = total (
      wait_tty_ready ∷ on redirection_part (Redirection.stop world) ∷ flash none false (pos 0) ∷ [])

  -- The class as the manager uses it.
  abbrev pub open_node : OpenNode AvrNode
  open_node = record {
    type_name = "leonardo";
    tty = leonardo_tty;
    alim = "5V";
    elf_target = some ("ELFCLASS32", "EM_AVR");
    setup = setup;
    teardown = teardown;
    status = pure (pos 0);
    flash = some flash;
    reset = some reset;
    debug_start = none;
    debug_stop = none;
  }
