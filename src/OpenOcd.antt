-- ===== src/OpenOcd.antt =====
-- gateway_code/utils/openocd.py: reset, flash and debug through an OpenOCD process.
pub mod Debug
use iot_lab_gateway.Prelude.{ℕ, String, Bool, true, false, none, some, List, [], ◌∷◌, if◌then◌else◌}
use iot_lab_gateway.Prelude.Int.{ℤ, pos}
use iot_lab_gateway.Text.{concat, hex}
use iot_lab_gateway.Effects.{
  World, Action, pure, raise, gets, modify, perform, try_except, try_finally, ◌>>=◌, ◌>>◌,
  Exception, io_error, os_error, attribute_error, run, spawn, terminate, open_read, exited,
  timed_out, not_started, done, io_failed, os_failed, Attempt, Outcome,
}

-- `OpenOCD`. `debug` says whether `_debug` holds a process.
pub record OpenOcd : Type 0 where
  pub openocd_path : String
  pub config : String
  pub timeout : ℕ
  pub debug : Bool

abbrev pub reset_cmd : String
reset_cmd = " -c \"reset run\" -c \"shutdown\""

abbrev pub debug_cmd : String
debug_cmd = " -c \"reset halt\""

-- `FLASH.format(path)`
unfoldable pub flash_cmd : String → String
unfolding concat
flash_cmd path = concat (
    " -c \"reset halt\" -c \"reset init\" -c \"flash write_image erase " ∷ path
    ∷ "\" -c \"verify_image " ∷ path ∷ "\" -c \"reset run\" -c \"shutdown\"" ∷ [])

-- `FLASH_BIN.format(path, hex(offset))`
unfoldable pub flash_bin_cmd : String → ℤ → String
unfolding concat hex
flash_bin_cmd path offset = concat (
    " -c \"reset halt\" -c \"reset init\" -c \"program "
    ∷ path
    ∷ " verify "
    ∷ hex offset
    ∷ "\" -c \"reset run\" -c \"shutdown\""
    ∷ [])

-- The command line of `_openocd_args`.
unfoldable pub openocd_args : OpenOcd → String → String
unfolding concat
openocd_args o cmd =
    concat (o.openocd_path ∷ " --debug=0 " ∷ o.config ∷ " -c \"init\" -c \"targets\" " ∷ cmd ∷ [])

-- The code of `subprocess_timeout.call`: 1 at a TimeoutExpired; an OSError goes on.
abbrev pub call_code : {O : Type 0} → Outcome → Action O ℤ
call_code (exited code) = pure code
call_code timed_out = pure (pos 1)
call_code (not_started n) = raise (os_error n)

abbrev pub attempted : {O A : Type 0} → Attempt A → Action O A
attempted (done a) = pure a
attempted (io_failed n) = raise (io_error n)
attempted (os_failed n) = raise (os_error n)

-- `except IOError: return 1`
abbrev pub io_error_as_1 : {O : Type 0} → Exception → Action O ℤ
io_error_as_1 (io_error n) = pure (pos 1)
io_error_as_1 e = raise e

module _ (world : World) where
  -- `_call_cmd`: an error while the debugger runs.
  unfoldable pub call_cmd : String → Action OpenOcd ℤ
  call_cmd command = do
    o ← gets (λ o. o)
    if o.debug then pure (pos 1) else (do
      outcome ← perform world (run (openocd_args o command) (some o.timeout))
      call_code outcome)

  unfoldable pub reset : Action OpenOcd ℤ
  unfolding call_cmd
  reset = call_cmd reset_cmd

  unfoldable pub flash : String → Bool → ℤ → Action OpenOcd ℤ
  unfolding call_cmd
  flash fw_file binary offset =
      try_except
        (do
          opened ← perform world (open_read fw_file)
          path ← attempted opened
          if binary then call_cmd (flash_bin_cmd path offset) else call_cmd (flash_cmd path))
        io_error_as_1

  -- `debug_stop`: whatever `terminate` does, no process is held behind it.
  unfoldable pub debug_stop : Action OpenOcd ℤ
  debug_stop = do
    o ← gets (λ o. o)
    if o.debug
        then try_finally
            (try_except
              (do
                ended ← perform world (terminate (openocd_args o debug_cmd))
                attempted ended
                pure (pos 0))
              (λ e. elim e [ os_error n ↦ pure (pos 1) | other ↦ raise other ]))
            (λ o. record o { debug = false })
        else pure (pos 0)

  unfoldable pub debug_start : Action OpenOcd ℤ
  unfolding debug_stop
  debug_start = do
    debug_stop
    o ← gets (λ o. o)
    started ← perform world (spawn (openocd_args o debug_cmd))
    attempted started
    modify (λ o. record o { debug = true })
    pure (pos 0)
