-- ===== src/Protocol/Codes.antt =====
-- The return codes of the protocol's commands: 0 or 1.
use iot_lab_gateway.Prelude.{
  String, Bool, true, false, ◌≡◌, sym, ap, ◌∙◌, inl, inr, Option, none, some, List, [], ◌∷◌, arith,
  if◌then◌else◌,
}
use iot_lab_gateway.Prelude.Int.{ℤ, pos, IsNonneg}
use iot_lab_gateway.Json.{Json, null, flag, number, text, arr, obj, str_of, is_word}
use iot_lab_gateway.Profile.{Consumption, Radio, Checked, valid, failed}
use iot_lab_gateway.Effects.{
  Action, Exception, pure, raise, ◌>>=◌, index_error, type_error, not_implemented,
}
use iot_lab_gateway.Effects.Steps.{Result-cases, >>=-returned, >>=-raised}
use iot_lab_gateway.Effects.Codes.{NoNegative}
use iot_lab_gateway.Protocol.{
  sent, is_ack, send_cmd, start_stop, consumption_args, config_consumption, filled, channel_list,
  config_radio_measure, config_radio_sniffer, stop_radio, config_radio,
}

pub NoNegative-pure : {O : Type 0} (c : ℤ) → IsNonneg c → NoNegative {O = O} (pure c)
NoNegative-pure c n = record { nonneg = λ s code e. (let k : c ≡ code = cc e in rw k at n) }

NoNegative-raise : {O : Type 0} (e : Exception) → NoNegative {O = O} (raise e)
NoNegative-raise e = record { nonneg = λ s code h. cc h }

pub NoNegative-bind :
    {O A : Type 0} (m : Action O A) (f : A → Action O ℤ)
    → ((a : A) → NoNegative (f a))
    → NoNegative (m >>= f)
NoNegative-bind m f n = record {
  nonneg = λ s code e. elim (Result-cases (m s).0) [
    | inl (a, h) ↦ (n a).nonneg (m s).1 code (sym (ap (λ x. x.0) (>>=-returned m f s h)) ∙ e)
    | inr (x, h) ↦ cc (sym (ap (λ x. x.0) (>>=-raised m f s h)) ∙ e)
  ];
}

-- What follows a code that is not negative.
pub NoNegative-counted :
    {O : Type 0} (m : Action O ℤ) (f : ℤ → Action O ℤ)
    → NoNegative m
    → ((c : ℤ) → IsNonneg c → NoNegative (f c))
    → NoNegative (m >>= f)
NoNegative-counted m f k n = record {
  nonneg = λ s code e. elim (Result-cases (m s).0) [
    | inl (c, h) ↦
        (n c (k.nonneg s c h)).nonneg (m s).1 code (sym (ap (λ x. x.0) (>>=-returned m f s h)) ∙ e)
    | inr (x, h) ↦ cc (sym (ap (λ x. x.0) (>>=-raised m f s h)) ∙ e)
  ];
}

pub NoNegative-if :
    {O : Type 0} (b : Bool) (m n : Action O ℤ)
    → NoNegative m
    → NoNegative n
    → NoNegative (if b then m else n)
NoNegative-if true m n hm hn = hm
NoNegative-if false m n hm hn = hn

NoNegative-code : {O : Type 0} (b : Bool) → NoNegative {O = O} (pure (if b then pos 0 else pos 1))
NoNegative-code true = NoNegative-pure (pos 0) (ground arith)
NoNegative-code false = NoNegative-pure (pos 1) (ground arith)

NoNegative-filled :
    {O : Type 0} (o : Option String) (next : String → Action O ℤ)
    → ((s : String) → NoNegative (next s))
    → NoNegative (filled o next)
NoNegative-filled none next n = NoNegative-raise not_implemented
NoNegative-filled (some s) next n = n s

module _ {O : Type 0} (sender : List String → Action O (Option (List String))) where
  pub NoNegative-send_cmd : (args : List String) → NoNegative (send_cmd sender args)
  unfolding send_cmd
  NoNegative-send_cmd [] = NoNegative-raise index_error
  NoNegative-send_cmd (command ∷ args) =
      NoNegative-bind (sender (command ∷ args)) _ λ answer. NoNegative-code (is_ack command answer)

  pub NoNegative-start_stop :
      (command : String) (alim : Json) → NoNegative (start_stop sender command alim)
  unfolding start_stop
  NoNegative-start_stop command (text alim) = NoNegative-send_cmd (command ∷ alim ∷ [])
  NoNegative-start_stop command null = NoNegative-raise type_error
  NoNegative-start_stop command (flag b) = NoNegative-raise type_error
  NoNegative-start_stop command (number n) = NoNegative-raise type_error
  NoNegative-start_stop command (arr is) = NoNegative-raise type_error
  NoNegative-start_stop command (obj fs) = NoNegative-raise type_error

  NoNegative-sent :
      (command : String) (args : Checked (List String)) → NoNegative (sent sender command args)
  NoNegative-sent command (valid args) = NoNegative-send_cmd (command ∷ args)
  NoNegative-sent command (failed e) = NoNegative-raise e

  pub NoNegative-config_consumption :
      (c : Option Consumption) → NoNegative (config_consumption sender c)
  unfolding config_consumption
  NoNegative-config_consumption c =
      NoNegative-sent "config_consumption_measure" (consumption_args c)

  NoNegative-config_radio_measure : (r : Radio) → NoNegative (config_radio_measure sender r)
  unfolding config_radio_measure
  NoNegative-config_radio_measure r = NoNegative-filled (str_of r.period) _ λ period.
      NoNegative-filled (str_of r.num_per_channel) _ λ num.
        NoNegative-send_cmd ("config_radio_measure" ∷ channel_list r.channels ∷ period ∷ num ∷ [])

  NoNegative-config_radio_sniffer : (r : Radio) → NoNegative (config_radio_sniffer sender r)
  unfolding config_radio_sniffer
  NoNegative-config_radio_sniffer r =
      NoNegative-filled (str_of r.period) _ λ period.
        NoNegative-send_cmd ("config_radio_sniffer" ∷ channel_list r.channels ∷ period ∷ [])

  pub NoNegative-config_radio : (r : Option Radio) → NoNegative (config_radio sender r)
  unfolding config_radio stop_radio
  NoNegative-config_radio none = NoNegative-send_cmd ("config_radio_stop" ∷ [])
  NoNegative-config_radio (some r) =
      NoNegative-if (is_word "rssi" r.mode) _ _ (NoNegative-config_radio_measure r) (
        NoNegative-if (is_word "sniffer" r.mode) _ _ (NoNegative-config_radio_sniffer r)
          (NoNegative-raise not_implemented))
