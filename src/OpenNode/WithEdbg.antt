-- ===== src/OpenNode/WithEdbg.antt =====
-- gateway_code/open_nodes/common/node_edbg.py: open nodes with an EDBG programmer, which OpenOCD
-- replaces while a debugger is attached.
pub mod Teardown
use iot_lab_gateway.Prelude.{
  ℕ, String, Bool, true, false, Option, none, some, [], ◌∷◌, if◌then◌else◌,
}
use iot_lab_gateway.Prelude.Int.{ℤ, pos}
use iot_lab_gateway.Effects.{World, Action, Part, pure, gets, modify, on, total, ◌>>=◌, ◌>>◌}
use iot_lab_gateway.Common.{wait_tty, wait_no_tty, tty_detect_time, path_or}
use iot_lab_gateway.OpenOcd
use iot_lab_gateway.OpenOcd.{OpenOcd}
use iot_lab_gateway.Edbg
use iot_lab_gateway.Edbg.{Edbg}
use iot_lab_gateway.Redirection
use iot_lab_gateway.Redirection.{External}
use iot_lab_gateway.OpenNode.{OpenNode}

-- `NodeEdbgBase`
pub record EdbgNode : Type 0 where
  pub serial_redirection : External
  pub openocd : OpenOcd
  pub edbg : Edbg
  pub current_fw : Option String
  pub in_debug : Bool

abbrev pub openocd_part : Part EdbgNode OpenOcd
openocd_part = record { get = λ n. n.openocd; put = λ o n. record n { openocd = o } }

abbrev pub edbg_part : Part EdbgNode Edbg
edbg_part = record { get = λ n. n.edbg; put = λ e n. record n { edbg = e } }

abbrev pub redirection_part : Part EdbgNode External
redirection_part = record {
  get = λ n. n.serial_redirection;
  put = λ p n. record n { serial_redirection = p };
}

abbrev pub edbg_tty : String
edbg_tty = "/dev/iotlab/ttyON_CMSIS_DAP"

-- `TYPE` and `FW_IDLE` of the subclass are arguments.
module _ (world : World) (type_name fw_idle : String) where
  unfoldable pub flash : Option String → Bool → ℤ → Action EdbgNode ℤ
  flash firmware_path binary offset =
      let path = path_or firmware_path fw_idle in
      do
        modify (λ n. record n { current_fw = some path })
        debugged ← gets (λ n. n.in_debug)
        if debugged
            then on openocd_part (OpenOcd.flash world path binary offset)
            else on edbg_part (Edbg.flash world path binary offset)

  unfoldable pub reset : Action EdbgNode ℤ
  reset = on openocd_part (OpenOcd.reset world)

  -- What was flashed with EDBG is flashed again with OpenOCD; its code is dropped.
  unfoldable pub debug_start : Action EdbgNode ℤ
  unfolding flash
  debug_start = do
    modify (λ n. record n { in_debug = true })
    current ← gets (λ n. n.current_fw)
    elim current [ none ↦ pure (pos 0) | some fw ↦ flash (some fw) false (pos 0) ]
    on openocd_part (OpenOcd.debug_start world)

  unfoldable pub debug_stop : Action EdbgNode ℤ
  debug_stop = do
    modify (λ n. record n { in_debug = false })
    on openocd_part (OpenOcd.debug_stop world)

  unfoldable pub setup : Option String → Action EdbgNode ℤ
  unfolding flash
  setup firmware_path = do
    modify (λ n. record n { in_debug = false })
    wait_no_tty world edbg_tty tty_detect_time
    total (
        wait_tty world edbg_tty tty_detect_time
        ∷ flash firmware_path false (pos 0)
        ∷ on redirection_part (Redirection.start world)
        ∷ [])

  unfoldable pub teardown : Action EdbgNode ℤ
  unfolding flash debug_stop
  teardown = do
    modify (λ n. record n { in_debug = false })
    wait_no_tty world edbg_tty tty_detect_time
    total (
        wait_tty world edbg_tty tty_detect_time
        ∷ debug_stop
        ∷ on redirection_part (Redirection.stop world)
        ∷ flash none false (pos 0)
        ∷ [])

  -- The class as the manager uses it.
  abbrev pub open_node : OpenNode EdbgNode
  open_node = record {
    type_name = type_name;
    tty = edbg_tty;
    alim = "5V";
    elf_target = some ("ELFCLASS32", "EM_ARM");
    setup = setup;
    teardown = teardown;
    status = pure (pos 0);
    flash = some flash;
    reset = some reset;
    debug_start = some debug_start;
    debug_stop = some debug_stop;
  }
