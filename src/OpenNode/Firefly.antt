-- ===== src/OpenNode/Firefly.antt =====
-- gateway_code/open_nodes/node_firefly.py: a Zolertia Firefly, programmed by its serial bootloader.
use iot_lab_gateway.Prelude.{
  String, Bool, true, false, not, Option, none, some, [], ◌∷◌, if◌then◌else◌,
}
use iot_lab_gateway.Prelude.Int.{ℤ, pos, ◌==ℤ◌}
use iot_lab_gateway.Effects.{World, Action, Part, pure, on, total, ◌>>◌}
use iot_lab_gateway.Common.{wait_tty, wait_no_tty, tty_detect_time, path_or}
use iot_lab_gateway.Cc2538
use iot_lab_gateway.Cc2538.{Cc2538}
use iot_lab_gateway.Redirection
use iot_lab_gateway.Redirection.{External}
use iot_lab_gateway.OpenNode.{OpenNode}

-- `NodeFirefly`
pub record Firefly : Type 0 where
  pub serial_redirection : External
  pub cc2538 : Cc2538

abbrev pub firefly_tty : String
firefly_tty = "/dev/iotlab/ttyON_FIREFLY"

-- `NodeFirefly.__init__`
unfoldable pub init : Firefly
init = record {
  serial_redirection = Redirection.serial_redirection firefly_tty 115200;
  cc2538 = record { port = firefly_tty; baud = 460800; timeout = 100 };
}

abbrev pub cc2538_part : Part Firefly Cc2538
cc2538_part = record { get = λ n. n.cc2538; put = λ c n. record n { cc2538 = c } }

abbrev pub redirection_part : Part Firefly External
redirection_part = record {
  get = λ n. n.serial_redirection;
  put = λ p n. record n { serial_redirection = p };
}

-- `FW_IDLE`, a path among the static files, is an argument.
module _ (world : World) (fw_idle : String) where
  unfoldable pub do_flash : Option String → Bool → Action Firefly ℤ
  do_flash firmware_path toggle_redirect = total (
      (if toggle_redirect then on redirection_part (Redirection.stop world) else pure (pos 0))
      ∷ on cc2538_part (Cc2538.flash world (path_or firmware_path fw_idle))
      ∷ (if toggle_redirect then on redirection_part (Redirection.start world) else pure (pos 0))
      ∷ [])

  unfoldable pub flash : Option String → Bool → ℤ → Action Firefly ℤ
  unfolding do_flash
  flash firmware_path binary offset =
      if binary
      then pure (pos 1)
      else if not (offset ==ℤ pos 0)
      then pure (pos 1)
      else do_flash firmware_path true

  unfoldable pub reset : Action Firefly ℤ
  reset = on cc2538_part (Cc2538.reset world)

  unfoldable pub setup : Option String → Action Firefly ℤ
  unfolding do_flash
  setup firmware_path =
      wait_no_tty world firefly_tty tty_detect_time
      >> total (
          wait_tty world firefly_tty tty_detect_time
          ∷ do_flash firmware_path false
          ∷ on redirection_part (Redirection.start world)
          ∷ [])

  unfoldable pub teardown : Action Firefly ℤ
  unfolding do_flash
  teardown =
      wait_no_tty world firefly_tty tty_detect_time
      >> total (
          wait_tty world firefly_tty tty_detect_time
          ∷ on redirection_part (Redirection.stop world)
          ∷ do_flash none false
          ∷ [])

  -- The class as the manager uses it.
  abbrev pub open_node : OpenNode Firefly
  open_node = record {
    type_name = "firefly";
    tty = firefly_tty;
    alim = "5V";
    elf_target = some ("ELFCLASS32", "EM_ARM");
    setup = setup;
    teardown = teardown;
    status = pure (pos 0);
    flash = some flash;
    reset = some reset;
    debug_start = none;
    debug_stop = none;
  }
