-- ===== src/OpenNode/Pycom.antt =====
-- gateway_code/open_nodes/node_pycom.py: a Pycom board, whose flash is erased by commands to its
-- Python prompt.
use iot_lab_gateway.Prelude.{ℕ, String, Bool, true, false, Option, none, some, List, [], ◌∷◌}
use iot_lab_gateway.Prelude.Int.{ℤ, pos}
use iot_lab_gateway.Effects.{
  World, Action, Part, pure, raise, on, perform, total, ◌>>=◌, ◌>>◌, sleep, serial_connect,
  serial_write, serial_read_all, serial_close, port_opened, serial_failed, os_refused, os_error,
}
use iot_lab_gateway.Common.{wait_tty}
use iot_lab_gateway.OpenOcd.{attempted}
use iot_lab_gateway.Redirection
use iot_lab_gateway.Redirection.{External, not_started_yet, socat_cmd}
use iot_lab_gateway.OpenNode.{OpenNode}

-- `NodePycom`
pub record Pycom : Type 0 where
  pub serial_redirection : External

abbrev pub pycom_tty : String
pycom_tty = "/dev/iotlab/ttyON_PYCOM"

abbrev pub flash_erase_sequence : List String
flash_erase_sequence = "import os\r\n" ∷ "os.mkfs('/flash')\r\n" ∷ []

abbrev pub reset_sequence : List String
reset_sequence = "import machine\r\n" ∷ "machine.reset()\r\n" ∷ []

-- `PYCOM_SAFE_REBOOT_SEQUENCE` is a set: which of the two commands, an interrupt and a safe boot,
-- is sent first is not said by the code.
abbrev pub safe_reboot_sequence : Bool → List String
safe_reboot_sequence true = "\u{3}\r\n" ∷ "\u{6}\r\n" ∷ []
safe_reboot_sequence false = "\u{6}\r\n" ∷ "\u{3}\r\n" ∷ []

-- `NodePycom.__init__`
unfoldable pub init : Pycom
unfolding socat_cmd
init = record {
  serial_redirection =
      not_started_yet (socat_cmd pycom_tty 115200 ("echo=0" ∷ "raw" ∷ "crnl" ∷ []));
}

abbrev pub redirection_part : Part Pycom External
redirection_part = record {
  get = λ n. n.serial_redirection;
  put = λ p n. record n { serial_redirection = p };
}

-- The order in which the set is run through is an argument.
module _ (world : World) (interrupt_first : Bool) where
  abbrev pause : Option ℕ → Action Pycom (Unit {0})
  pause none = pure tt
  pause (some tenths) = perform world (sleep tenths)

  unfoldable pub send_commands : Option ℕ → List String → Action Pycom (Unit {0})
  send_commands delay [] = pure tt
  send_commands delay (command ∷ rest) =
      let others = send_commands delay rest in
      do
        written ← perform world (serial_write pycom_tty command)
        attempted written
        pause delay
        read ← perform world (serial_read_all pycom_tty)
        attempted read
        others

  -- `_send_sequence`, with the delay in tenths of a second.
  unfoldable pub send_sequence : List String → Option ℕ → Action Pycom ℤ
  unfolding send_commands
  send_sequence sequence delay = do
    opening ← perform world (serial_connect pycom_tty 115200)
    elim opening [
      | serial_failed ↦ pure (pos 1)
      | os_refused n ↦ raise (os_error n)
      | port_opened ↦
          send_commands delay sequence >> perform world (serial_close pycom_tty) >> pure (pos 0)
    ]

  unfoldable pub reset : Action Pycom ℤ
  unfolding send_sequence
  reset = send_sequence reset_sequence none

  unfoldable pub setup : Option String → Action Pycom ℤ
  unfolding send_sequence reset
  setup firmware_path = total (
      wait_tty world pycom_tty 10
      ∷ send_sequence (safe_reboot_sequence interrupt_first) (some 20)
      ∷ send_sequence flash_erase_sequence none
      ∷ reset
      ∷ on redirection_part (Redirection.start world)
      ∷ [])

  unfoldable pub teardown : Action Pycom ℤ
  unfolding send_sequence
  teardown = total (
      send_sequence (safe_reboot_sequence interrupt_first) (some 20)
      ∷ send_sequence flash_erase_sequence none
      ∷ on redirection_part (Redirection.stop world)
      ∷ [])

  -- The class as the manager uses it: `flash` and the attributes of `NodeNoBase`.
  abbrev pub open_node : String → OpenNode Pycom
  open_node alim = record {
    type_name = "pycom";
    tty = pycom_tty;
    alim = alim;
    elf_target = none;
    setup = setup;
    teardown = teardown;
    status = pure (pos 0);
    flash = some (λ firmware binary offset. pure (pos 0));
    reset = some reset;
    debug_start = none;
    debug_stop = none;
  }
