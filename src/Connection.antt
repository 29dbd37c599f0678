-- ===== src/Connection.antt =====
-- gateway_code/utils/serial_expect.py and node_connection.py: connections to the serial redirection
-- of the open node, and the text that comes back. A SerialException and a socket.error are IOErrors.
use Prim.Native.Char.{code}
use Prim.Native.String
use iot_lab_gateway.Prelude.{
  ℕ, zero, suc, ◌+◌, String, Bool, true, false, Option, none, some, List, [], ◌∷◌, leb, ◌==◌, same,
  if◌then◌else◌,
}
use iot_lab_gateway.Prelude.Int.{ℤ, pos}
use iot_lab_gateway.Text.{join, split, strip}
use iot_lab_gateway.Effects.{
  World, Action, pure, raise, gets, modify, perform, try_except, ◌>>=◌, ◌>>◌, io_error,
  attribute_error, socket_open, socket_close, socket_read, write_line, read_line, sleep, now,
}
use iot_lab_gateway.OpenOcd.{attempted, io_error_as_1}

-- `buff.split('\n')[-1]`
abbrev pub last_part : List String → String
last_part [] = ""
last_part (p ∷ []) = p
last_part (p ∷ q ∷ ps) = last_part (q ∷ ps)

-- Whether `end_time` has passed; without a timeout it never does.
abbrev pub is_over : Option ℕ → ℕ → Bool
is_over none time = false
is_over (some end_time) time = leb end_time time

module _ {O : Type 0} (world : World) where
  abbrev connect : String → Action O (Unit {0})
  connect url = do connected ← perform world (socket_open url); attempted connected

  -- `try_connect(url, tries)`, for one more than `retries` tries: half a second between two of them,
  -- and the last one raises.
  unfoldable pub try_connect : ℕ → String → Action O (Unit {0})
  try_connect zero url = connect url
  try_connect (suc retries) url =
      let again = try_connect retries url in
      try_except (connect url)
        (λ e. elim e [ io_error n ↦ perform world (sleep 5) >> again | other ↦ raise other ])

  -- The loop of `expect`: `search` is `regexp.search` of the pattern, and gives the text that it
  -- matches. None: out of fuel.
  unfoldable pub expect_loop :
      ℕ → String → Option ℕ → (String → Option String) → String → Action O (Option String)
  unfolding split
  expect_loop zero url end_time search buff = pure none
  expect_loop (suc fuel) url end_time search buff = do
    found ← perform world (socket_read url)
    elim found [
      | none ↦ pure (some "")
      | some bytes ↦ do
        time ← perform world now
        if is_over end_time time
            then pure (some "")
            else if same bytes ""
            then expect_loop fuel url end_time search buff
            else let line = String.◌++◌ (last_part (split b'\n' buff)) bytes in
              elim (search line) [
                | some match ↦ pure (some match)
                | none ↦ expect_loop fuel url end_time search line
              ]
    ]

  -- `expect(pattern, timeout)`, with the timeout in tenths of a second.
  unfoldable pub expect :
      ℕ → String → Option ℕ → (String → Option String) → Action O (Option String)
  unfolding expect_loop
  expect fuel url none search = perform world now >> expect_loop fuel url none search ""
  expect fuel url (some timeout) search = do
    time ← perform world now
    expect_loop fuel url (some (time + timeout)) search ""

-- `OpenNodeConnection`: its address, and whether `fd` and `sock` are there.
pub record Connection : Type 0 where
  pub address : String
  pub connected : Bool

-- `answer.endswith('\n')`
unfoldable pub ends_line : String → Bool
ends_line String.[] = false
ends_line (String.◌∷◌ c s) = let rest = ends_line s in if same s "" then code c == b'\n' else rest

-- A line that ends is split into its words.
unfoldable pub words_of : Option String → Option (List String)
unfolding ends_line strip split
words_of none = none
words_of (some line) = if ends_line line then some (split b' ' (strip line)) else none

module _ (world : World) where
  unfoldable pub start : Action Connection ℤ
  unfolding try_connect
  start = do
    c ← gets (λ c. c)
    try_except
        (try_connect world 9 c.address
          >> modify (λ c. record c { connected = true })
          >> pure (pos 0))
        io_error_as_1

  -- Without `fd` there is no attribute `close` or `readline`.
  abbrev with_fd : {A : Type 0} → Action Connection A → Action Connection A
  with_fd m = do c ← gets (λ c. c); if c.connected then m else raise attribute_error

  unfoldable pub stop : Action Connection ℤ
  stop = with_fd (do
    c ← gets (λ c. c)
    perform world (socket_close c.address)
    modify (λ c. record c { connected = false })
    perform world (sleep 10)
    pure (pos 0))

  -- `_readline`: the words of a line that ends; none at a timeout or an IOError, too.
  unfoldable pub read_words : Action Connection (Option (List String))
  unfolding words_of
  read_words =
      with_fd
        (do c ← gets (λ c. c); answer ← perform world (read_line c.address); pure (words_of answer))

  -- `send_command`: one line out, one line in.
  unfoldable pub send_command : List String → Action Connection (Option (List String))
  unfolding read_words join
  send_command command_list =
      with_fd (do
        c ← gets (λ c. c)
        written ← perform world (write_line c.address (String.◌++◌ (join " " command_list) "\n"))
        attempted written)
      >> read_words

  -- `empty`: lines are read until there is none. False: out of fuel.
  unfoldable pub empty : ℕ → Action Connection Bool
  unfolding read_words
  empty zero = pure false
  empty (suc fuel) = do
    answer ← read_words
    elim answer [ none ↦ pure true | some words ↦ empty fuel ]
