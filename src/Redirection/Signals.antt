-- ===== src/Redirection/Signals.antt =====
-- gateway_code/utils/external_process.py: the loop of `stop`, which sends a signal every tenth of a
-- second until the thread has ended.
pub mod Ending
use iot_lab_gateway.Prelude.{ℕ, zero, suc, String, Bool, true, false, ltb, ◌==◌, if◌then◌else◌}
use iot_lab_gateway.Effects.{
  World, Attempt, Signal, sigterm, sigint, sigkill, done, io_failed, os_failed, Action, pure, raise,
  perform, ◌>>=◌, ◌>>◌, is_alive, has_process, send_signal, sleep, assertion_error, io_error,
}

-- `signals_iter()`: the signal that is sent when `n` were sent before.
unfoldable pub nth_signal : ℕ → Signal
nth_signal n = if ltb n 10 then sigterm else if ltb n 20 then sigint else sigkill

-- A signal to a process that has ended is passed over: `errno == 3`.
abbrev pub sent : {O : Type 0} → Attempt (Unit {0}) → Action O (Unit {0})
sent (done _) = pure tt
sent (io_failed n) = raise (io_error n)
sent (os_failed n) = if n == 3 then pure tt else raise assertion_error

module _ {O : Type 0} (world : World) (cmd : String) where
  -- The loop, when `n` signals were sent. False: out of fuel.
  unfoldable pub stop_loop : ℕ → ℕ → Action O Bool
  unfolding nth_signal
  stop_loop zero n = pure false
  stop_loop (suc fuel) n = do
    alive ← perform world (is_alive cmd)
    if alive
        then (do
          there ← perform world (has_process cmd)
          if there
              then (do
                outcome ← perform world (send_signal cmd (nth_signal n))
                sent outcome
                perform world (sleep 1)
                stop_loop fuel (suc n))
              else perform world (sleep 1) >> stop_loop fuel n)
        else pure true
