-- ===== src/OpenNode/LoraGateway.antt =====
-- gateway_code/open_nodes/node_lora_gateway.py: a LoRa gateway, with a packet forwarder, a broker and
-- a bridge.
use iot_lab_gateway.Prelude.{ℕ, zero, suc, String, none, some, Option, [], ◌∷◌}
use iot_lab_gateway.Prelude.Int.{ℤ, pos}
use iot_lab_gateway.Effects.{
  World, Action, Part, pure, on, perform, total, ◌>>=◌, ◌>>◌, spawn, sleep, check_output,
}
use iot_lab_gateway.OpenOcd.{attempted}
use iot_lab_gateway.Redirection
use iot_lab_gateway.Redirection.{External}
use iot_lab_gateway.OpenNode.{OpenNode}

-- `NodeLoraGateway`
pub record LoraGateway : Type 0 where
  pub mosquitto : External
  pub lora_gateway_bridge : External

abbrev pub mosquitto_part : Part LoraGateway External
mosquitto_part = record { get = λ n. n.mosquitto; put = λ p n. record n { mosquitto = p } }

abbrev pub bridge_part : Part LoraGateway External
bridge_part = record {
  get = λ n. n.lora_gateway_bridge;
  put = λ p n. record n { lora_gateway_bridge = p };
}

abbrev pub forwarder_cmd : String
forwarder_cmd = "sudo CFG_DIR=/var/local/config /opt/lora/start.sh"

module _ (world : World) where
  module _ {O : Type 0} where
    -- `_lora_pkt_fwd_pid`: none at a CalledProcessError.
    unfoldable pub lora_pkt_fwd_pid : Action O (Option String)
    lora_pkt_fwd_pid = do
      output ← perform world (check_output "pgrep lora_pkt_fwd")
      elim output [ none ↦ pure none | some outcome ↦ attempted outcome >>= λ pid. pure (some pid) ]

    -- The loop of `_start_lora_pkt_fwd`, for the tries that are left.
    unfoldable pub start_loop : ℕ → Option String → Action O (Unit {0})
    unfolding lora_pkt_fwd_pid
    start_loop tries (some pid) = pure tt
    start_loop zero none = pure tt
    start_loop (suc tries) none = do
      started ← perform world (spawn forwarder_cmd)
      attempted started
      perform world (sleep 20)
      pid ← lora_pkt_fwd_pid
      start_loop tries pid

    -- `_tries <= LORA_PKT_FORWARDER_MAX_TRIES`: 51 tries.
    unfoldable pub start_lora_pkt_fwd : Action O (Unit {0})
    unfolding lora_pkt_fwd_pid start_loop
    start_lora_pkt_fwd = lora_pkt_fwd_pid >>= λ pid. start_loop 51 pid

    -- `NodeLoraGateway.__init__`
    unfoldable pub init : Action O LoraGateway
    unfolding start_lora_pkt_fwd
    init = do
      start_lora_pkt_fwd
      bridge ← Redirection.lora_gateway_bridge world
      pure (record { mosquitto = Redirection.mosquitto 1883; lora_gateway_bridge = bridge })

  unfoldable pub setup : Option String → Action LoraGateway ℤ
  setup firmware_path =
      total (
        on mosquitto_part (Redirection.start world) ∷ on bridge_part (Redirection.start world) ∷ [])

  unfoldable pub teardown : Action LoraGateway ℤ
  teardown =
      total
        (on bridge_part (Redirection.stop world) ∷ on mosquitto_part (Redirection.stop world) ∷ [])

  -- The class as the manager uses it: the rest is that of `NodeNoBase`.
  abbrev pub open_node : String → String → OpenNode LoraGateway
  open_node tty alim = record {
    type_name = "lora_gw";
    tty = tty;
    alim = alim;
    elf_target = none;
    setup = setup;
    teardown = teardown;
    status = pure (pos 0);
    flash = some (λ firmware binary offset. pure (pos 0));
    reset = some (pure (pos 0));
    debug_start = none;
    debug_stop = none;
  }
