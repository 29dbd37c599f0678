-- ===== src/Examples.antt =====
-- A gateway without nodes, a world in which every call succeeds, and runs of the theorems there.
mod Experiments
mod Devices
mod Boards
mod Autotests
use iot_lab_gateway.Prelude.{ℕ, Bool, true, false, none, some, List, [], ◌∷◌, length}
use iot_lab_gateway.Prelude.Int.{pos}
use iot_lab_gateway.Json.{null, text}
use iot_lab_gateway.Profile.{Profile}
use iot_lab_gateway.Effects.{
  World, State, Call, Reply, exited, done, lines, run, spawn, terminate, kill, wait, open_read,
  path_exists, is_file, create_file, file_size, remove_file, read_file, open_log, make_folder,
  temp_file, elf_header, elf_sections, exchange, await_ready, thread_start, thread_stop,
  serial_open, serial_connect, serial_write, serial_read_all, serial_close, set_dtr, clear_hangup,
  socket_open, socket_close, socket_read, write_line, read_line, spawn_thread, is_alive,
  has_process, send_signal, drop_measures, received_measures, port_opened, check_output, sleep, now,
}
use iot_lab_gateway.ControlNode.{ControlNode}
use iot_lab_gateway.ControlNode.None
use iot_lab_gateway.ControlNode.None.{NoControlNode}
use iot_lab_gateway.OpenNode.{OpenNode}
use iot_lab_gateway.Manager.{Manager, Board}

-- The clock counts the calls.
abbrev pub answer : List Call → (c : Call) → Reply c
answer calls (run line timeout) = exited (pos 0)
answer calls (spawn line) = done tt
answer calls (terminate line) = done tt
answer calls (kill line) = done tt
answer calls (wait line timeout) = exited (pos 0)
answer calls (open_read path) = done path
answer calls (path_exists path) = true
answer calls (is_file path) = true
answer calls (create_file path) = done tt
answer calls (file_size path) = done 0
answer calls (remove_file path) = done tt
answer calls (read_file path) = done "\n"
answer calls (open_log path) = done tt
answer calls (make_folder path) = done tt
answer calls (temp_file suffix) = done "/tmp/firmware.bin"
answer calls (elf_header path) = done none
answer calls (elf_sections path) = done (some (record { executable = true; sh_addr = 4096 } ∷ []))
answer calls (exchange line) = lines ("start ACK\n" ∷ [])
answer calls await_ready = true
answer calls (thread_start line) = true
answer calls (thread_stop line) = tt
answer calls (serial_open tty baud) = true
answer calls (serial_connect tty baud) = port_opened
answer calls (serial_write tty line) = done tt
answer calls (serial_read_all tty) = done tt
answer calls (serial_close tty) = tt
answer calls (set_dtr tty level) = done tt
answer calls (clear_hangup tty) = some (done tt)
answer calls (socket_open url) = done tt
answer calls (socket_close url) = tt
answer calls (socket_read url) = some "login: "
answer calls (write_line url line) = done tt
answer calls (read_line url) = some "ACK get_time 12 ticks\n"
answer calls (spawn_thread name) = tt
answer calls (is_alive line) = false
answer calls (has_process line) = true
answer calls (send_signal line signal) = done tt
answer calls drop_measures = tt
answer calls received_measures = []
answer calls (check_output line) = some (done "02:00:00:00:00:01")
answer calls (sleep tenths) = tt
answer calls now = length calls

abbrev pub calm : World
calm = answer

abbrev pub board : Board
board = record { robot_type = none; node_id = "m3-1" }

abbrev pub no_control_node : ControlNode NoControlNode
no_control_node = None.control_node

abbrev pub no_open_node : OpenNode (Unit {0})
no_open_node = None.open_node "no" "/dev/null" "5V"

abbrev pub default_profile : Profile
default_profile = record {
  profilename = text "default";
  power = text "dc";
  consumption = none;
  radio = none;
}

abbrev pub idle : State (Manager NoControlNode (Unit {0}))
idle = record {
  self = record {
    rlock = none;
    control = record {
      node_id = "m3-1";
      default_profile = default_profile;
      profile = default_profile;
    };
    open_node = tt;
    exp_id = none;
    user = none;
    exp_files = [];
    experiment_is_running = false;
    user_log_handler = none;
    timeout_timer = none;
    log_handlers = [];
  };
  trace = [];
}
