-- ===== src/Lib.antt =====
-- The gateway of an IoT-LAB node: the program that runs experiments on an open node, with a control
-- node beside it that powers it and measures it.
--
-- Parts, and the files that model them:
--   * gateway_code/gateway_manager.py: Manager (operations), Manager/State (attributes, lock),
--     Manager/Files (experiment files, with gateway_code/config.py), Manager/Autotests (`auto_tests`),
--     Manager/Moves (an abstract machine for it, the session of one experiment). The manager takes
--     the two node classes as records of methods (ControlNode, OpenNode), as in
--     gateway_code/nodes.py.
--   * gateway_code/rest_server.py: Rest (the handlers, and the answer 503 to a request while
--     another runs), which calls the manager, and Rest/Autotests (the arguments of the auto-tests).
--   * gateway_code/common.py: Common (waiting for a device file), Common/Booleans (`booleanize`); the
--     synchronized methods are in Manager/State, the features of a class in Autotest.
--   * gateway_code/autotest/autotest.py: Autotest (the report, its checks, the commands to the open
--     node), and below it Measures, Sensors, OnControl and Running (`auto_tests`). A Bench is what the
--     tests use of the two nodes; Autotest/Board makes one of an IoT-LAB control node and an OpenOCD
--     node.
--   * gateway_code/profile.py: Profile, over the JSON values of Json.
--   * gateway_code/control_nodes/cn_iotlab: Protocol (cn_protocol.py), Serial (cn_interface.py) and
--     ControlNode/Iotlab (__init__.py), which joins them and OpenOcd.
--   * gateway_code/control_nodes/cn_iotlabm3, cn_rpi3 and cn_no: ControlNode/IotlabM3,
--     ControlNode/Rpi3 and ControlNode/None.
--   * gateway_code/nodes.py: beside the two records, Nodes (`verify` and the registry of classes).
--   * gateway_code/board_config.py: BoardConfig, with `read_config` of config.py.
--   * gateway_code/open_nodes/common: OpenNode/WithOpenOcd, OpenNode/WithEdbg,
--     OpenNode/Classes (the boards of WithOpenOcd, with node_jlink.py and node_st_link.py), and
--     `node_no.py` in
--     ControlNode/None. gateway_code/open_nodes: OpenNode/Firefly, Leonardo, Zigduino, Pycom, RtlSdr
--     and LoraGateway, and OpenNode/Linux for node_a8.py and node_rpi3.py.
--   * gateway_code/utils: OpenOcd, Edbg, Avrdude, Cc2538, ElfTarget, FtdiCheck, Connection
--     (serial_expect.py and
--     node_connection.py), Redirection (external_process.py and its subclasses), and
--     Redirection/Signals for the loop of signals in `ExternalProcess.stop`.
--
-- A method is an `Action` (Effects): it reads and writes its object, makes calls, and returns or
-- raises. Calls leave the program: processes, files, device files, the clock, threads, the control
-- node program. A `World` answers each call in view of all calls before it, and the theorems hold
-- for every world, but that waiting ends only with a clock that goes on. An attribute that holds an
-- object is a `Part`, and `on` runs a method of it. `total` is the idiom `ret_val += …`.
--
-- Python 2.7 is the language: IOError and OSError are two classes. Return codes are integers (a
-- negative one is a signal). Times are in tenths of a second. A command line is the text that the
-- code splits. A thread is a number, and the lock has an owner and a count. Requests follow one
-- another, each run to its end; a request while another thread holds the lock is modelled as the
-- state with that lock.
--
-- Fuel: `wait_loop` runs on two rounds more than the timeout has tenths of a second, the digits of
-- a number are written on more fuel than the number, the loop that waits for the pulse of a GPS runs
-- on 25 rounds of five seconds for a timeout of two minutes, and `stop_loop` on the rounds that its
-- theorem names. `expect` and `empty` read as long as there is something to read, so their fuel is an
-- argument, and running out of it is a result of its own. Every other loop is structural.
--
-- Not modelled: the auto-tests of boards whose open node runs Linux, the import of the
-- node classes, the command line tools, log messages, floats
-- (those of the auto-tests are an argument, those of JSON are left out), and the C program that
-- speaks with the control node.
pub mod Prelude
pub mod Text
pub mod Effects
pub mod FtdiCheck
pub mod Json
pub mod Nodes
pub mod Profile
pub mod Protocol
pub mod Serial
pub mod OpenOcd
pub mod Common
pub mod ElfTarget
pub mod Redirection
pub mod Edbg
pub mod ControlNode
pub mod OpenNode
pub mod Manager
pub mod BoardConfig
pub mod Rest
pub mod Examples
pub mod Avrdude
pub mod Cc2538
pub mod Connection
pub mod Autotest
