-- ===== src/Protocol/Keeping.antt =====
-- A command leaves alone what its sender leaves alone.
use iot_lab_gateway.Prelude.{String, Option, List, [], ◌∷◌, if◌then◌else◌}
use iot_lab_gateway.Prelude.Int.{pos}
use iot_lab_gateway.Json.{Json, null, flag, number, text, arr, obj}
use iot_lab_gateway.Effects.{Action, index_error, type_error}
use iot_lab_gateway.Effects.Triples.{Keeps, Triple-bind, Triple-pure, Triple-raise}
use iot_lab_gateway.Protocol.{is_ack, send_cmd, start_stop}

module _ {O : Type 0} {P : O → Type 0} (sender : List String → Action O (Option (List String)))
    (k : (args : List String) → Keeps P (sender args)) where
  pub Keeps-send_cmd : (args : List String) → Keeps P (send_cmd sender args)
  unfolding send_cmd
  Keeps-send_cmd [] = Triple-raise index_error (λ o p. p)
  Keeps-send_cmd (command ∷ args) =
      Triple-bind (sender (command ∷ args)) _ (k (command ∷ args))
        λ answer. Triple-pure (if is_ack command answer then pos 0 else pos 1) (λ o p. p)

  pub Keeps-start_stop : (command : String) (alim : Json) → Keeps P (start_stop sender command alim)
  unfolding start_stop
  Keeps-start_stop command (text alim) = Keeps-send_cmd (command ∷ alim ∷ [])
  Keeps-start_stop command null = Triple-raise type_error (λ o p. p)
  Keeps-start_stop command (flag b) = Triple-raise type_error (λ o p. p)
  Keeps-start_stop command (number n) = Triple-raise type_error (λ o p. p)
  Keeps-start_stop command (arr is) = Triple-raise type_error (λ o p. p)
  Keeps-start_stop command (obj fs) = Triple-raise type_error (λ o p. p)
