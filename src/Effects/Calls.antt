-- ===== src/Effects/Calls.antt =====
-- The calls to what is not in the repository, with the type of the answer to each. A command line
-- is the text that the code hands to `shlex.split`.
use iot_lab_gateway.Prelude.{ℕ, String, Bool, Option, List}
use iot_lab_gateway.Prelude.Int.{ℤ}

-- How a command that is waited for ends. A negative code is the signal that killed it.
pub data Outcome : Type 0 where
  exited : ℤ → Outcome
  timed_out : Outcome
  not_started : ℕ → Outcome

-- A call that returns, or raises IOError or OSError with its errno.
pub data Attempt (A : Type 0) : Type 0 where
  done : A → Attempt A
  io_failed os_failed : ℕ → Attempt A

-- What pyelftools reads of a firmware file: type, class and machine.
pub record ElfHeader : Type 0 where
  pub kind : String
  pub class : String
  pub machine : String

-- What comes back over the pipe of the control node program while its answer is awaited.
pub data Exchange : Type 0 where
  broken_pipe : Exchange
  lines : List String → Exchange

-- A section of an ELF file: whether SHF_EXECINSTR is among its flags, and its address.
pub record ElfSection : Type 0 where
  pub executable : Bool
  pub sh_addr : ℕ

-- How `serial.Serial(tty, baudrate)` ends: open, a SerialException, or an OSError with its errno.
pub data Opening : Type 0 where
  port_opened serial_failed : Opening
  os_refused : ℕ → Opening

pub data Signal : Type 0 where
  sigterm sigint sigkill : Signal

pub data Call : Type 0 where
  -- `subprocess.call(shlex.split(line), timeout=…)`
  run : String → Option ℕ → Call
  -- `subprocess.Popen(shlex.split(line))`, `terminate()`, `wait(timeout)`, `kill()`
  spawn terminate kill : String → Call
  wait : String → ℕ → Call
  -- the absolute path of a file that can be opened for reading
  open_read : String → Call
  path_exists is_file : String → Call
  -- a file that is created, or emptied, with mode 0666; its size; its removal
  create_file file_size remove_file : String → Call
  -- the text of a file
  read_file : String → Call
  -- a log file that is opened for appending
  open_log : String → Call
  make_folder : String → Call
  -- a temporary file with this suffix, and with the text that is written to it
  temp_file : String → Call
  -- the header of an ELF file, or none at an ELFError
  elf_header : String → Call
  -- the sections of an ELF file, or none at an ELFError
  elf_sections : String → Call
  -- a line written to the control node program, and the lines read before the answer times out
  exchange : String → Call
  -- whether the program reports that it is ready, and not that it ended
  await_ready : Call
  -- a background thread that keeps a command running: started, or stopped
  thread_start thread_stop : String → Call
  -- a serial port that is opened, at a baud rate, and its pending input dropped
  serial_open : String → ℕ → Call
  -- `serial.Serial(tty, baudrate)`, and what is done with the port
  serial_connect : String → ℕ → Call
  serial_write : String → String → Call
  serial_read_all serial_close : String → Call
  set_dtr : String → Bool → Call
  -- the terminal attributes of a port with HUPCL cleared; none is a termios.error
  clear_hangup : String → Call
  -- `serial.serial_for_url(url)` or `socket.create_connection(address)`
  socket_open : String → Call
  socket_close : String → Call
  -- at most 16 bytes within a tenth of a second; none where reading fails
  socket_read : String → Call
  -- a line written and flushed; a line read, or none at a timeout or an IOError
  write_line : String → String → Call
  read_line : String → Call
  -- a thread that runs a method beside the caller
  spawn_thread : String → Call
  -- whether the thread of a background command runs, whether it has a process, a signal to it
  is_alive has_process : String → Call
  send_signal : String → Signal → Call
  -- `cn_measures = []`, and the words of the measures that the reader thread has added since
  drop_measures received_measures : Call
  -- the output of a command; none is a CalledProcessError
  check_output : String → Call
  -- `time.sleep`, in tenths of a second
  sleep : ℕ → Call
  now : Call

abbrev pub Reply : Call → Type 0
Reply (run _ _) = Outcome
Reply (spawn _) = Attempt (Unit {0})
Reply (terminate _) = Attempt (Unit {0})
Reply (kill _) = Attempt (Unit {0})
Reply (wait _ _) = Outcome
Reply (open_read _) = Attempt String
Reply (path_exists _) = Bool
Reply (is_file _) = Bool
Reply (create_file _) = Attempt (Unit {0})
Reply (read_file _) = Attempt String
Reply (open_log _) = Attempt (Unit {0})
Reply (file_size _) = Attempt ℕ
Reply (remove_file _) = Attempt (Unit {0})
Reply (make_folder _) = Attempt (Unit {0})
Reply (temp_file _) = Attempt String
Reply (elf_header _) = Attempt (Option ElfHeader)
Reply (elf_sections _) = Attempt (Option (List ElfSection))
Reply (exchange _) = Exchange
Reply await_ready = Bool
Reply (thread_start _) = Bool
Reply (thread_stop _) = Unit {0}
Reply (serial_open _ _) = Bool
Reply (serial_connect _ _) = Opening
Reply (serial_write _ _) = Attempt (Unit {0})
Reply (serial_read_all _) = Attempt (Unit {0})
Reply (serial_close _) = Unit {0}
Reply (set_dtr _ _) = Attempt (Unit {0})
Reply (clear_hangup _) = Option (Attempt (Unit {0}))
Reply (socket_open _) = Attempt (Unit {0})
Reply (socket_close _) = Unit {0}
Reply (socket_read _) = Option String
Reply (write_line _ _) = Attempt (Unit {0})
Reply (read_line _) = Option String
Reply (spawn_thread _) = Unit {0}
Reply (is_alive _) = Bool
Reply (has_process _) = Bool
Reply (send_signal _ _) = Attempt (Unit {0})
Reply drop_measures = Unit {0}
Reply received_measures = List (List String)
Reply (check_output _) = Option (Attempt String)
Reply (sleep _) = Unit {0}
Reply now = ℕ
