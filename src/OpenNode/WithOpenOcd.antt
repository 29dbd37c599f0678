-- ===== src/OpenNode/WithOpenOcd.antt =====
-- gateway_code/open_nodes/common/node_openocd.py: open nodes that are programmed with OpenOCD.
use iot_lab_gateway.Prelude.{
  ℕ, String, Bool, false, Option, none, some, List, [], ◌∷◌, if◌then◌else◌,
}
use iot_lab_gateway.Prelude.Int.{ℤ, pos, ◌+ℤ◌}
use iot_lab_gateway.Effects.{
  World, Action, Part, pure, perform, on, total, ◌>>=◌, ◌>>◌, serial_open,
}
use iot_lab_gateway.Common.{wait_tty, wait_no_tty, tty_detect_time, path_or}
use iot_lab_gateway.OpenOcd
use iot_lab_gateway.OpenOcd.{OpenOcd}
use iot_lab_gateway.Redirection
use iot_lab_gateway.Redirection.{External}
use iot_lab_gateway.OpenNode.{OpenNode}
use iot_lab_gateway.FtdiCheck.{ftdi_check}

-- The class attributes of a subclass of `NodeOpenOCDBase`.
pub record NodeClass : Type 0 where
  pub type_name : String
  pub tty : String
  pub baudrate : ℕ
  pub fw_idle : String
  pub fw_autotest : String
  pub rom_start_addr : ℕ
  pub jlink_serial : Bool
  pub dirty_serial : Bool
  pub openocd_path : String
  pub openocd_cfg_file : String
  pub openocd_opts : List String
  pub alim : String
  pub autotest_available : List String
  -- the type of the FTDI chip that `status` looks for
  pub ftdi_type : Option String

-- `NodeOpenOCDBase`
pub record OpenOcdNode : Type 0 where
  pub serial_redirection : External
  pub openocd : OpenOcd

abbrev pub openocd_part : Part OpenOcdNode OpenOcd
openocd_part = record { get = λ n. n.openocd; put = λ o n. record n { openocd = o } }

abbrev pub redirection_part : Part OpenOcdNode External
redirection_part = record {
  get = λ n. n.serial_redirection;
  put = λ p n. record n { serial_redirection = p };
}

module _ (world : World) (class : NodeClass) where
  unfoldable pub clear_serial : Action OpenOcdNode ℤ
  clear_serial = do
    found ← perform world (serial_open class.tty class.baudrate)
    if found then pure (pos 0) else pure (pos 1)

  unfoldable pub flash : Option String → Bool → ℤ → Action OpenOcdNode ℤ
  unfolding clear_serial
  flash firmware_path binary offset = total (
      on openocd_part (
        OpenOcd.flash world (path_or firmware_path class.fw_idle) binary
          (pos class.rom_start_addr +ℤ offset))
      ∷ (if class.jlink_serial then wait_tty world class.tty tty_detect_time else pure (pos 0))
      ∷ (if class.dirty_serial then clear_serial else pure (pos 0))
      ∷ [])

  unfoldable pub reset : Action OpenOcdNode ℤ
  reset = on openocd_part (OpenOcd.reset world)

  unfoldable pub debug_start : Action OpenOcdNode ℤ
  debug_start = on openocd_part (OpenOcd.debug_start world)

  unfoldable pub debug_stop : Action OpenOcdNode ℤ
  debug_stop = on openocd_part (OpenOcd.debug_stop world)

  unfoldable pub setup : Option String → Action OpenOcdNode ℤ
  unfolding flash
  setup firmware_path =
      wait_no_tty world class.tty tty_detect_time
      >> total (
          wait_tty world class.tty tty_detect_time
          ∷ flash firmware_path false (pos 0)
          ∷ on redirection_part (Redirection.start world)
          ∷ [])

  unfoldable pub teardown : Action OpenOcdNode ℤ
  unfolding flash debug_stop
  teardown =
      wait_no_tty world class.tty tty_detect_time
      >> total (
          wait_tty world class.tty tty_detect_time
          ∷ debug_stop
          ∷ on redirection_part (Redirection.stop world)
          ∷ flash none false (pos 0)
          ∷ [])

  unfoldable pub status : Action OpenOcdNode ℤ
  status = elim class.ftdi_type [
    | none ↦ pure (pos 0)
    | some ftdi_type ↦ ftdi_check world ftdi_type none
  ]

  -- The class as the manager uses it.
  abbrev pub open_node : OpenNode OpenOcdNode
  open_node = record {
    type_name = class.type_name;
    tty = class.tty;
    alim = class.alim;
    elf_target = some ("ELFCLASS32", "EM_ARM");
    setup = setup;
    teardown = teardown;
    status = status;
    flash = some flash;
    reset = some reset;
    debug_start = some debug_start;
    debug_stop = some debug_stop;
  }
