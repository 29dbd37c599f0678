-- ===== src/Serial.antt =====
-- gateway_code/control_nodes/cn_iotlab/cn_interface.py: the process that speaks with the control
-- node, the thread that reads its lines, and the queue of one answer between that thread and the
-- sender of a command.
--
-- The reader thread runs while a command waits: the lines that it handles until the answer is taken
-- or the second is over come with the world's reply to `exchange`. `await_ready` is the blocking
-- `_wait_ready.get()`. Not modelled: log messages, and a `float` that fails inside one.
pub mod Answers
use iot_lab_gateway.Prelude.{
  ℕ, String, Bool, true, false, Option, none, some, List, [], ◌∷◌, ◌++◌, same, if◌then◌else◌,
  is_none,
}
use iot_lab_gateway.Prelude.Int.{ℤ, pos}
use iot_lab_gateway.Text.{concat, join, split, strip}
use iot_lab_gateway.OpenOcd.{attempted}
use iot_lab_gateway.Effects.{
  World, Action, pure, raise, gets, modify, perform, try_except, ◌>>=◌, ◌>>◌, Exception, os_error,
  exchange, broken_pipe, lines, spawn, terminate, kill, wait, temp_file, await_ready, done,
  io_failed, os_failed, io_error, exited, timed_out, not_started, Attempt,
}

-- `ControlNodeSerial`. `reader_thread` says that the reader runs. The debug handler of the
-- auto-tests appends to a list, `measures`.
pub record Serial : Type 0 where
  pub tty : String
  pub process : Bool
  pub reader_thread : Bool
  pub msgs : Option (List String)
  pub measures_debug : Bool
  pub measures : List String
  pub oml_cfg_file : Option String

-- `queue.put_nowait(answer)` on a queue of size 1: a second answer is dropped with an error.
abbrev pub put_nowait : List String → Serial → Serial
put_nowait answer s = elim s.msgs [ none ↦ record s { msgs = some answer } | some _ ↦ s ]

-- `measures_handler`
abbrev pub measures_handler : String → Serial → Serial
measures_handler line s =
    if s.measures_debug then record s { measures = s.measures ++ line ∷ [] } else s

-- The tag of a line that answers no command.
pub data Tag : Type 0 where
  config_ack error serial_error measure ready answer : Tag

unfoldable pub tag_of : String → Tag
tag_of word =
    if same word "config_ack"
    then config_ack
    else if same word "error"
    then error
    else if same word "cn_serial_error:"
    then serial_error
    else if same word "measures_debug:"
    then measure
    else if same word "cn_serial_ready"
    then ready
    else answer

-- `_handle_answer`, by the tag of the first word. None: an IndexError ends the reader thread.
unfoldable pub handle_tagged : Tag → List String → String → Serial → Option Serial
handle_tagged config_ack (_ ∷ []) line s = none
handle_tagged config_ack (_ ∷ kind ∷ []) line s = if same kind "set_time" then none else some s
handle_tagged config_ack _ line s = some s
handle_tagged error (_ ∷ []) line s = none
handle_tagged error _ line s = some s
handle_tagged serial_error words line s = some s
handle_tagged measure words line s = some (measures_handler line s)
handle_tagged ready words line s = some s
handle_tagged answer words line s = some (put_nowait words s)

abbrev pub head_word : List String → String
head_word [] = ""
head_word (w ∷ ws) = w

unfoldable pub handle_answer : String → Serial → Option Serial
unfolding split tag_of handle_tagged
handle_answer line s =
    let words = split b' ' line in handle_tagged (tag_of (head_word words)) words line s

-- The loop of `_reader` over the lines that come. An IndexError ends the thread for good.
unfoldable pub read_lines : List String → Serial → Serial
unfolding handle_answer strip
read_lines [] s = s
read_lines (line ∷ rest) s = elim (handle_answer (strip line) s) [
  | none ↦ record s { reader_thread = false }
  | some t ↦ read_lines rest t
]

-- Without the reader nobody reads the lines.
abbrev pub hear : List String → Serial → Serial
hear ls s = if s.reader_thread then read_lines ls s else s

-- `msgs.get(block=True, timeout=1.0)` behind the lines that were read; none at `queue.Empty`.
abbrev pub take_answer : Action Serial (Option (List String))
take_answer = gets (λ s. s.msgs) >>= λ answer. modify (λ s. record s { msgs = none }) >> pure answer

module _ (world : World) where
  -- `send_command`
  unfoldable pub send_command : List String → Action Serial (Option (List String))
  send_command args = do
    modify (λ s. record s { msgs = none })
    running ← gets (λ s. s.process)
    if running
        then (do
          reply ← perform world (exchange (concat (join " " args ∷ "\n" ∷ [])))
          elim reply [ broken_pipe ↦ pure none | lines ls ↦ modify (hear ls) >> take_answer ])
        else pure none

  -- `_oml_config_file`
  unfoldable pub oml_config_file : Option String → Action Serial (Option String)
  oml_config_file none = pure none
  oml_config_file (some xml) = do
    made ← perform world (temp_file "--oml.config")
    name ← attempted made
    pure (some name)

  -- `_cn_interface_args`, as a command line.
  unfoldable pub interface_args : Option String → Action Serial String
  unfolding oml_config_file concat
  interface_args xml = do
    file ← oml_config_file xml
    modify (λ s. record s { oml_cfg_file = file })
    tty ← gets (λ s. s.tty)
    debug ← gets (λ s. s.measures_debug)
    pure (
        concat (
          "control_node_serial_interface -t "
          ∷ tty
          ∷ elim file [ none ↦ "" | some name ↦ concat (" -c " ∷ name ∷ []) ]
          ∷ (if debug then " -d" else "")
          ∷ []))

  abbrev attempt : Attempt (Unit {0}) → Action Serial (Unit {0})
  attempt (done _) = pure tt
  attempt (io_failed n) = raise (io_error n)
  attempt (os_failed n) = raise (os_error n)

  -- `start`
  unfoldable pub start : Option String → Action Serial ℤ
  unfolding interface_args
  start xml = do
    args ← interface_args xml
    started ← perform world (spawn args)
    attempt started
    modify (λ s. record s { process = true; reader_thread = true })
    is_ready ← perform world await_ready
    pure (if is_ready then pos 0 else pos 1)

  -- `_process_stop(timeout=5)`; without a process its AttributeError is passed over.
  unfoldable pub process_stop : Action Serial (Unit {0})
  process_stop = do
    running ← gets (λ s. s.process)
    if running
        then (do
          ended ← perform world (terminate "control_node_serial_interface")
          attempt ended
          waited ← perform world (wait "control_node_serial_interface" 5)
          elim waited [
            | exited _ ↦ pure tt
            | not_started _ ↦ pure tt
            | timed_out ↦ perform world (kill "control_node_serial_interface") >>= attempt
          ])
        else pure tt

  -- `stop`
  unfoldable pub stop : Action Serial ℤ
  unfolding process_stop
  stop = do
    try_except process_stop (λ e. elim e [ os_error n ↦ pure tt | other ↦ raise other ])
    modify (λ s. record s {
      process = false;
      reader_thread = false;
      measures_debug = false;
      oml_cfg_file = none;
    })
    pure (pos 0)
