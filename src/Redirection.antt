-- ===== src/Redirection.antt =====
-- gateway_code/utils/external_process.py and its subclasses: a thread that keeps an external
-- command running, started and stopped by its owner. `thread_stop` stands for the loop of signals
-- in `stop`, which Redirection/Signals models.
pub mod Signals
use iot_lab_gateway.Prelude.{ℕ, String, Bool, true, false, List, [], ◌∷◌, if◌then◌else◌}
use iot_lab_gateway.Prelude.Int.{ℤ, pos}
use iot_lab_gateway.Text.{concat, join, str}
use iot_lab_gateway.Effects.{
  World, Action, pure, raise, gets, modify, perform, ◌>>=◌, ◌>>◌, runtime_error, thread_start,
  thread_stop, is_file,
}

-- `ExternalProcess`: the command, `_run`, and whether the thread object was started since its
-- last `_thread_init`.
pub record External : Type 0 where
  pub process_cmd : String
  pub is_run : Bool
  pub is_started : Bool

-- `ExternalProcess.__init__`, behind the command line of the subclass.
abbrev pub not_started_yet : String → External
not_started_yet cmd = record { process_cmd = cmd; is_run = false; is_started = false }

-- `SOCAT.format(tty=…, baud=…, serial_opts=','.join(serial_opts))`
unfoldable pub socat_cmd : String → ℕ → List String → String
unfolding concat str join
socat_cmd tty baud serial_opts = concat (
    "socat -d TCP4-LISTEN:20000,reuseaddr open:"
    ∷ tty
    ∷ ",b"
    ∷ str baud
    ∷ ","
    ∷ join "," serial_opts
    ∷ [])

-- `SerialRedirection(tty, baudrate)`
unfoldable pub serial_redirection : String → ℕ → External
unfolding socat_cmd
serial_redirection tty baud = not_started_yet (socat_cmd tty baud ("echo=0" ∷ "raw" ∷ []))

-- `RtlTcp(port, frequency)`
unfoldable pub rtl_tcp : ℕ → ℕ → External
unfolding concat str
rtl_tcp port frequency =
    not_started_yet
      (concat ("/usr/bin/rtl_tcp -a 0.0.0.0 -p " ∷ str port ∷ " -f " ∷ str frequency ∷ []))

-- `Mosquitto(port)`
unfoldable pub mosquitto : ℕ → External
unfolding concat str
mosquitto port = not_started_yet (concat ("/usr/sbin/mosquitto -v -p " ∷ str port ∷ []))

module _ (world : World) where
  -- `LoraGatewayBridge()`: a configuration file of the gateway goes before that of the bridge.
  unfoldable pub lora_gateway_bridge : {O : Type 0} → Action O External
  unfolding concat
  lora_gateway_bridge = do
    found ← perform world (is_file "/var/local/config/lora-gateway-bridge.toml")
    pure (
        not_started_yet (
          concat (
            "/opt/lora-gateway-bridge/lora-gateway-bridge -c "
            ∷ (if found
                then "/var/local/config/lora-gateway-bridge.toml"
                else "/opt/lora-gateway-bridge/lora-gateway-bridge.toml")
            ∷ [])))

  -- `start`: a thread object starts once only; 1 if `Popen` was not called within 15 seconds.
  unfoldable pub start : Action External ℤ
  start = do
    modify (λ p. record p { is_run = true })
    p ← gets (λ p. p)
    if p.is_started then raise runtime_error else (do
      ready ← perform world (thread_start p.process_cmd)
      modify (λ p. record p { is_started = true })
      if ready then pure (pos 0) else pure (pos 1))

  -- `stop`: signals until the thread has ended, then a new thread object.
  unfoldable pub stop : Action External ℤ
  stop = do
    modify (λ p. record p { is_run = false })
    p ← gets (λ p. p)
    perform world (thread_stop p.process_cmd)
    modify (λ p. record p { is_started = false })
    pure (pos 0)
