-- ===== src/Rest.antt =====
-- gateway_code/rest_server.py: the handlers of HTTP requests, and the wrapper around each;
-- the arguments of `auto_tests` are in Rest/Autotests. Bottle's request is given: a query text is
-- empty where it is missing.
pub mod Blocking
pub mod Autotests
use iot_lab_gateway.Prelude.{
  ℕ, String, Bool, Option, none, some, [], ◌∷◌, ◌==◌, same, if◌then◌else◌, false,
}
use iot_lab_gateway.Prelude.Int.{ℤ, pos, negsuc}
use iot_lab_gateway.Text.{concat, parse_int}
use iot_lab_gateway.Json.{Json, null, text}
use iot_lab_gateway.Effects.{
  World, Action, Exception, pure, raise, perform, try_except, ◌>>=◌, environment_error, value_error,
  io_error, os_error, temp_file,
}
use iot_lab_gateway.OpenOcd.{attempted}
use iot_lab_gateway.Common.Booleans.{booleanize}
use iot_lab_gateway.Autotest.{Report}
use iot_lab_gateway.ControlNode.{ControlNode}
use iot_lab_gateway.OpenNode.{OpenNode}
use iot_lab_gateway.Manager as Operations
use iot_lab_gateway.Manager.Autotests.{Tests, auto_tests}
use iot_lab_gateway.Rest.Autotests.{Arguments, wrong, arguments, arguments_of}
use iot_lab_gateway.Manager.{Manager, Board, open_node, would_block}

-- The dictionary with `ret`, alone or with the `error` of a flash without a firmware; that of an
-- argument of the auto-tests which is refused; the report of the auto-tests; the text of status 503.
pub data Response : Type 0 where
  ret : ℤ → Response
  no_firmware : Response
  refused : String → Response
  reported : Report → Response
  unavailable : Response

-- `request.files['profile']` or the body: missing, no JSON, or JSON.
pub data Upload : Type 0 where
  missing unreadable : Upload
  json : Json → Upload

-- The handlers, with what the request holds.
pub data Handler : Type 0 where
  post_exp_start :
      (user : String) (exp_id : ℕ) (timeout : String) (firmware : Option String) (profile : Upload)
      → Handler
  delete_exp_stop : Handler
  post_exp_update : (profile : Upload) → Handler
  post_open_flash : (binary offset : String) (firmware : Option String) → Handler
  put_flash_idle put_reset put_open_start put_open_stop put_debug_start put_debug_stop get_status :
      Handler
  put_autotest : (mode : Option String) (channel gps flash : String) → Handler
  get_sleep : ℕ → Handler

-- `max(0, int(timeout))`, and 0 at a ValueError.
unfoldable pub timeout_of : String → ℕ
unfolding parse_int
timeout_of query = elim (parse_int query) [ some (pos n) ↦ n | _ ↦ 0 ]

-- `_extract_firmware`: the upload is copied to a temporary file.
unfoldable pub extract_firmware : {S : Type 0} → World → Option String → Action S (Option String)
unfolding concat
extract_firmware world none = pure none
extract_firmware world (some name) = do
  made ← perform world (temp_file (concat ("--" ∷ name ∷ [])))
  path ← attempted made
  pure (some path)

-- A conversion of an argument, whose ValueError goes on.
abbrev pub converted : {S A : Type 0} → Option A → Action S A
converted none = raise value_error
converted (some a) = pure a

-- `query.binary` and `query.offset` of `open_flash`: empty where they are missing.
unfoldable pub binary_of : String → Option Bool
unfolding booleanize
binary_of query = if same query "" then some false else booleanize (text query)

unfoldable pub offset_of : String → Option ℤ
unfolding parse_int
offset_of query = if same query "" then some (pos 0) else parse_int query

-- `{'ret': ret}`
abbrev pub with_ret : {S : Type 0} → Action S ℤ → Action S Response
with_ret m = m >>= λ code. pure (ret code)

-- With the profile that was sent; one that is no JSON is answered with 1.
abbrev pub with_upload : {S : Type 0} → Upload → (Json → Action S ℤ) → Action S Response
with_upload missing next = with_ret (next null)
with_upload unreadable next = pure (ret (pos 1))
with_upload (json v) next = with_ret (next v)

-- EWOULDBLOCK is status 503; every other exception goes on.
abbrev pub unless_blocked : {S : Type 0} → Exception → Action S Response
unless_blocked (environment_error n) =
    if n == would_block then pure unavailable else raise (environment_error n)
unless_blocked (io_error n) = if n == would_block then pure unavailable else raise (io_error n)
unless_blocked (os_error n) = if n == would_block then pure unavailable else raise (os_error n)
unless_blocked e = raise e

-- The end of `auto_tests`, for the method of the manager that runs the tests.
module _ {S : Type 0} (run : (channel : Option ℕ) (blink flash gps : Bool) → Action S Report) where
  abbrev pub answer_with : Arguments → Action S Response
  answer_with (wrong error) = pure (refused error)
  answer_with (arguments channel blink flash gps) =
      run channel blink flash gps >>= λ report. pure (reported report)

-- `_cb_wrap`
unfoldable pub cb_wrap : {S : Type 0} → Action S Response → Action S Response
cb_wrap func = try_except func unless_blocked

module _ {C O F : Type 0} (world : World) (board : Board) (cn : ControlNode C) (node : OpenNode O)
    (tests : Tests C O F) where
  -- The end of `open_flash`, with the path of the upload.
  abbrev pub flash_upload : ℕ → Bool → ℤ → Option String → Action (Manager C O) Response
  flash_upload me binary offset none = pure no_firmware
  flash_upload me binary offset (some path) =
      with_ret (Operations.node_flash world board cn node me open_node (some path) binary offset)

  unfoldable pub answer : ℕ → Handler → Action (Manager C O) Response
  unfolding timeout_of extract_firmware binary_of offset_of arguments_of auto_tests
  answer me (post_exp_start user exp_id timeout firmware profile) = do
    path ← extract_firmware world firmware
    with_upload profile
        λ v. Operations.exp_start world board cn node me user exp_id path v (timeout_of timeout)
  answer me delete_exp_stop = with_ret (Operations.exp_stop world board cn node me)
  answer me (post_exp_update profile) =
      with_upload profile λ v. Operations.exp_update_profile world board cn node me v
  answer me (post_open_flash binary_value offset_value firmware) = do
    binary ← converted (binary_of binary_value)
    offset ← converted (offset_of offset_value)
    path ← extract_firmware world firmware
    flash_upload me binary offset path
  answer me put_flash_idle =
      with_ret (Operations.node_flash world board cn node me open_node none false (pos 0))
  answer me put_reset = with_ret (Operations.node_soft_reset world board cn node me open_node)
  answer me put_open_start = with_ret (Operations.open_power_start world board cn node me null)
  answer me put_open_stop = with_ret (Operations.open_power_stop world board cn node me null)
  answer me put_debug_start = with_ret (Operations.open_debug_start world board cn node me)
  answer me put_debug_stop = with_ret (Operations.open_debug_stop world board cn node me)
  answer me (put_autotest mode channel gps flash) =
      answer_with (auto_tests world tests me) (arguments_of mode channel gps flash)
  answer me get_status = with_ret (Operations.status world board cn node me)
  answer me (get_sleep seconds) = with_ret (Operations.sleep_for world board cn node me seconds)

  unfoldable pub respond : ℕ → Handler → Action (Manager C O) Response
  unfolding answer cb_wrap
  respond me handler = cb_wrap (answer me handler)
