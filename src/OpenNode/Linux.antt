-- ===== src/OpenNode/Linux.antt =====
-- gateway_code/open_nodes/node_a8.py and node_rpi3.py: open nodes that boot Linux, with a thread that
-- watches the boot on the serial port. The two classes differ in their names.
use iot_lab_gateway.Prelude.{
  ℕ, String, Bool, true, false, ◌&&◌, Option, none, some, [], ◌∷◌, if◌then◌else◌,
}
use iot_lab_gateway.Prelude.Int.{ℤ, pos, ◌==ℤ◌}
use iot_lab_gateway.Effects.{
  World, Action, Part, pure, raise, gets, modify, on, perform, total, try_except, ◌>>=◌, ◌>>◌,
  io_error, os_error, spawn_thread, socket_close, sleep, now,
}
use iot_lab_gateway.Common.{wait_tty, wait_no_tty, tty_detect_time}
use iot_lab_gateway.Connection.{try_connect, expect}
use iot_lab_gateway.Redirection
use iot_lab_gateway.Redirection.{External}
use iot_lab_gateway.OpenNode.{OpenNode}

-- `NodeA8` and `NodeRpi3`. `expecting` says whether `_a8_expect` is there.
pub record LinuxNode : Type 0 where
  pub serial_redirection : External
  pub expecting : Bool

-- `TYPE` and `TTY`
pub record LinuxClass : Type 0 where
  pub type_name : String
  pub tty : String

abbrev pub a8 : LinuxClass
a8 = record { type_name = "a8"; tty = "/dev/ttyON_A8" }

abbrev pub rpi3 : LinuxClass
rpi3 = record { type_name = "rpi3"; tty = "/dev/iotlab/ttyON_RPI3" }

-- `__init__`
unfoldable pub init : LinuxClass → LinuxNode
init class = record {
  serial_redirection = Redirection.serial_redirection class.tty 115200;
  expecting = false;
}

abbrev pub redirection_part : Part LinuxNode External
redirection_part = record {
  get = λ n. n.serial_redirection;
  put = λ p n. record n { serial_redirection = p };
}

abbrev pub redirection_url : String
redirection_url = "socket://localhost:20000"

-- `try: body` / `finally: cleanup`, for a cleanup that makes calls.
abbrev finally_do : {O A : Type 0} → Action O A → Action O ℤ → Action O A
finally_do body cleanup = try_except body (λ e. cleanup >> raise e) >>= λ a. cleanup >> pure a

module _ (world : World) (class : LinuxClass) where
  -- `_debug_boot_stop`: `close` waits for a second behind the connection.
  unfoldable pub debug_boot_stop : Action LinuxNode ℤ
  debug_boot_stop = do
    expecting ← gets (λ n. n.expecting)
    if expecting
        then perform world (socket_close redirection_url)
          >> perform world (sleep 10)
          >> pure (pos 0)
        else pure (pos 0)

  -- `wait_booted(timeout)`, with the timeout in tenths of a second. `search` is the regular
  -- expression ' login: '. None: out of fuel.
  unfoldable pub wait_booted : ℕ → (String → Option String) → ℕ → Action LinuxNode (Option String)
  unfolding debug_boot_stop try_connect expect
  wait_booted fuel search timeout =
      finally_do
        (try_except
          (perform world now
            >> try_connect world 9 redirection_url
            >> modify (λ n. record n { expecting = true })
            >> expect world fuel redirection_url (some timeout) search)
          (λ e. elim e [
            | os_error n ↦ pure (some "")
            | io_error n ↦ pure (some "")
            | other ↦ raise other
          ]))
        (perform world now >> debug_boot_stop)

  -- `setup(_firmware, debug)`: the boot is watched by a thread, if nothing failed.
  unfoldable pub setup_with : Bool → Action LinuxNode ℤ
  setup_with debug =
      wait_no_tty world class.tty tty_detect_time
      >> total (wait_tty world class.tty 20 ∷ on redirection_part (Redirection.start world) ∷ [])
      >>= λ ret_val.
          if (ret_val ==ℤ pos 0) && debug
          then perform world (spawn_thread "wait_booted") >> pure ret_val
          else pure ret_val

  unfoldable pub teardown : Action LinuxNode ℤ
  unfolding debug_boot_stop
  teardown = total (on redirection_part (Redirection.stop world) ∷ debug_boot_stop ∷ [])

  -- The class as the manager uses it: it has no `flash`, no `reset` and no `ELF_TARGET`.
  abbrev pub open_node : OpenNode LinuxNode
  open_node = record {
    type_name = class.type_name;
    tty = class.tty;
    alim = "5V";
    elf_target = none;
    setup = λ firmware. setup_with true;
    teardown = teardown;
    status = pure (pos 0);
    flash = none;
    reset = none;
    debug_start = none;
    debug_stop = none;
  }

-- `NodeA8`
abbrev pub a8_node : World → OpenNode LinuxNode
a8_node world = open_node world a8

-- `NodeRpi3`
abbrev pub rpi3_node : World → OpenNode LinuxNode
rpi3_node world = open_node world rpi3
