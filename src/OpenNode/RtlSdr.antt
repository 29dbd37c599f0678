-- ===== src/OpenNode/RtlSdr.antt =====
-- gateway_code/open_nodes/node_rtl_sdr.py: a software defined radio on a switched USB port.
use iot_lab_gateway.Prelude.{String, none, some, Option, [], ◌∷◌}
use iot_lab_gateway.Prelude.Int.{ℤ, pos}
use iot_lab_gateway.Text.{concat}
use iot_lab_gateway.Effects.{World, Action, Part, pure, on, perform, total, ◌>>=◌, run}
use iot_lab_gateway.OpenOcd.{call_code}
use iot_lab_gateway.Redirection
use iot_lab_gateway.Redirection.{External}
use iot_lab_gateway.OpenNode.{OpenNode}

-- `NodeRtlSdr`
pub record RtlSdr : Type 0 where
  pub rtl_tcp : External

-- `NodeRtlSdr.__init__`
unfoldable pub init : RtlSdr
init = record { rtl_tcp = Redirection.rtl_tcp 50000 868000000 }

abbrev pub rtl_tcp_part : Part RtlSdr External
rtl_tcp_part = record { get = λ n. n.rtl_tcp; put = λ p n. record n { rtl_tcp = p } }

-- `YKUSHCMD.format(model="", cmd=…, port="3")`
unfoldable pub ykush_cmd : String → String
unfolding concat
ykush_cmd cmd = concat ("sudo ykushcmd  " ∷ cmd ∷ " 3" ∷ [])

module _ (world : World) where
  -- `subprocess.call`, with no timeout.
  abbrev power : String → Action RtlSdr ℤ
  power flag = do outcome ← perform world (run (ykush_cmd flag) none); call_code outcome

  unfoldable pub setup : Option String → Action RtlSdr ℤ
  setup firmware_path = total (power "-u" ∷ on rtl_tcp_part (Redirection.start world) ∷ [])

  unfoldable pub teardown : Action RtlSdr ℤ
  teardown = total (on rtl_tcp_part (Redirection.stop world) ∷ power "-d" ∷ [])

  -- The class as the manager uses it: the rest is that of `NodeNoBase`.
  abbrev pub open_node : String → String → OpenNode RtlSdr
  open_node tty alim = record {
    type_name = "rtl_sdr";
    tty = tty;
    alim = alim;
    elf_target = none;
    setup = setup;
    teardown = teardown;
    status = pure (pos 0);
    flash = some (λ firmware binary offset. pure (pos 0));
    reset = some (pure (pos 0));
    debug_start = none;
    debug_stop = none;
  }
