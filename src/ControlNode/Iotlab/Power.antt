-- ===== src/ControlNode/Iotlab/Power.antt =====
-- The power state of the open node that the control node object remembers.
use iot_lab_gateway.Prelude.{String, ◌≡◌, ◌≢◌, refl, ◌⊎◌, inl, inr}
use iot_lab_gateway.Prelude.Int.{ℤ, pos, ◌==ℤ◌, ==ℤ-eq, ==ℤ-refl}
use iot_lab_gateway.Json.{Json, or_else}
use iot_lab_gateway.Effects.{State, World, gets, modify}
use iot_lab_gateway.Effects.Triples.{
  Post, Triple, Triple-bind, Triple-pure, Triple-gets, Triple-modify, Triple-if, Keeps-on,
}
use iot_lab_gateway.Serial
use iot_lab_gateway.Protocol.{start_stop}
use iot_lab_gateway.Protocol.Keeping.{Keeps-start_stop}
use iot_lab_gateway.ControlNode.Iotlab.{Iotlab, serial_part, sender, switch, open_start, open_stop}

-- The open node's state is as it was.
abbrev pub Stays : String → Iotlab → Type 0
Stays before c = c.open_node_state ≡ before

-- The state follows the command exactly if its code is 0.
abbrev pub Follows : String → String → ℤ → Iotlab → Type 0
Follows before state code c =
    (code ≡ pos 0) × (c.open_node_state ≡ state) ⊎ (code ≢ pos 0) × (c.open_node_state ≡ before)

switch-Follows :
    (world : World) (before state : String) (power : Json)
    → Triple (Stays before) (switch world state power) (Follows before state) (Stays before)
switch-Follows world before state power =
    Triple-bind (gets (λ c. c)) _ (Triple-gets {Q = λ _. Stays before} _ (λ c p. p)) λ c.
      Triple-bind (start_stop (sender world) state (or_else power c.profile.power)) _
        (Keeps-start_stop (sender world)
          (λ args. Keeps-on serial_part (Serial.send_command world args) (λ s c p. p)) state
          (or_else power c.profile.power))
        λ ret.
          Triple-if (ret ==ℤ pos 0)
            (λ e.
              Triple-bind (modify (λ c. record c { open_node_state = state })) _
                (Triple-modify {Q = λ _. Stays state} _ (λ c p. refl))
                λ _. Triple-pure ret (λ c p. inl (==ℤ-eq ret (pos 0) e, p)))
            (λ e. Triple-pure ret (λ c p. inr (λ z. cc (z, e, ==ℤ-refl (pos 0)), p)))

-- `open_start` and `open_stop`, where they return, return 0 exactly with the state set to that of
-- the command, and leave it as it was with any other code; where they raise it is as it was.
pub open_switch-Follows :
    (world : World) (power : Json) (s : State Iotlab)
    → Post
        (Follows s.self.open_node_state "start")
        (Stays s.self.open_node_state)
        (open_start world power s)
      × Post
          (Follows s.self.open_node_state "stop")
          (Stays s.self.open_node_state)
          (open_stop world power s)
unfolding open_start open_stop
open_switch-Follows world power s = (
  (switch-Follows world s.self.open_node_state "start" power).at s refl,
  (switch-Follows world s.self.open_node_state "stop" power).at s refl,
)
