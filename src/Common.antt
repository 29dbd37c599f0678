-- ===== src/Common.antt =====
-- gateway_code/common.py: waiting for a device file, and the lock around a method.
pub mod Waiting
pub mod Booleans
use iot_lab_gateway.Prelude.{
  same, ℕ, zero, suc, ◌+◌, ◌*◌, ◌-◌, String, Bool, true, false, Option, none, some, ltb, ◌==◌,
  if◌then◌else◌, not,
}
use iot_lab_gateway.Prelude.Int.{ℤ, pos}
use iot_lab_gateway.Effects.{World, Action, pure, perform, ◌>>=◌, ◌>>◌, path_exists, now, sleep}

abbrev pub same_flag : Bool → Bool → Bool
same_flag true b = b
same_flag false b = not b

-- The loop of `wait_cond` for `os.path.exists(path)`, with the time in tenths of a second; a round
-- sleeps for one. None: out of fuel.
unfoldable pub wait_loop : {O : Type 0} → World → ℕ → ℕ → Bool → String → Action O (Option Bool)
wait_loop world zero deadline value path = pure none
wait_loop world (suc fuel) deadline value path =
    let again = wait_loop world fuel deadline value path in
    do
      found ← perform world (path_exists path)
      if same_flag value found then pure (some true) else (do
        time ← perform world now
        if ltb deadline time then pure (some false) else perform world (sleep 1) >> again)

-- `wait_cond(timeout, value, os.path.exists, path)`, for a timeout in seconds.
unfoldable pub wait_cond : {O : Type 0} → World → ℕ → Bool → String → Action O (Option Bool)
unfolding wait_loop
wait_cond world timeout value path = do
  start ← perform world now
  wait_loop world (suc (timeout * 10 + 1)) (start + timeout * 10) value path

-- Out of fuel counts as not found: `Waiting` shows that it does not happen.
abbrev pub found_code : Option Bool → ℤ
found_code (some true) = pos 0
found_code _ = pos 1

-- `TTY_DETECT_TIME`
abbrev pub tty_detect_time : ℕ
tty_detect_time = 3

unfoldable pub wait_tty : {O : Type 0} → World → String → ℕ → Action O ℤ
wait_tty world tty timeout = do found ← wait_cond world timeout true tty; pure (found_code found)

unfoldable pub wait_no_tty : {O : Type 0} → World → String → ℕ → Action O ℤ
wait_no_tty world tty timeout = do
  found ← wait_cond world timeout false tty
  pure (found_code found)

-- `firmware_path or default`: an empty path counts as none.
abbrev pub path_or : Option String → String → String
path_or none default = default
path_or (some path) default = if same path "" then default else path
