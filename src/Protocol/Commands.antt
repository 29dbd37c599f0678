-- ===== src/Protocol/Commands.antt =====
-- The command that goes to the control node for a radio that a profile was accepted with.
use iot_lab_gateway.Prelude.{
  String, ◌≡◌, refl, ap, ◌∙◌, ◌⊎◌, inl, inr, Option, some, List, [], ◌∷◌, true, false,
  if◌then◌else◌,
}
use iot_lab_gateway.Prelude.Int.{ℤ}
use iot_lab_gateway.Json.{Json, null, flag, number, text, arr, obj, as_number, str_of, is_word}
use iot_lab_gateway.Profile.{Radio, valid, radio_of}
use iot_lab_gateway.Profile.Spec.{IsRssi, IsSniffer}
use iot_lab_gateway.Profile.Validation.{radio_of-IsRadio}
use iot_lab_gateway.Effects.{Action, raise, not_implemented}
use iot_lab_gateway.Protocol.{
  filled, channel_list, send_cmd, config_radio, config_radio_measure, config_radio_sniffer,
}

str_of-number : (v : Json) {n : ℤ} → as_number v ≡ some n → (s : String) × (str_of v ≡ some s)
str_of-number (flag true) e = ("True", refl)
str_of-number (flag false) e = ("False", refl)
str_of-number (number n) e = (_, refl)
str_of-number null e = cc e
str_of-number (text s) e = cc e
str_of-number (arr is) e = cc e
str_of-number (obj fs) e = cc e

module _ {O : Type 0} (sender : List String → Action O (Option (List String))) where
  -- The mode and the one command of a measure: its channels, its period and its time per channel.
  abbrev pub Measures : Radio → Type 0
  Measures r =
      (r.mode ≡ text "rssi")
      × (period num : String) × (str_of r.period ≡ some period)
      × (str_of r.num_per_channel ≡ some num)
      × (config_radio sender (some r)
          ≡ send_cmd sender ("config_radio_measure" ∷ channel_list r.channels ∷ period ∷ num ∷ []))

  -- The mode and the one command of a sniffer: its channels and its period.
  abbrev pub Sniffs : Radio → Type 0
  Sniffs r =
      (r.mode ≡ text "sniffer")
      × (period : String) × (str_of r.period ≡ some period)
      × (config_radio sender (some r)
          ≡ send_cmd sender ("config_radio_sniffer" ∷ channel_list r.channels ∷ period ∷ []))

  sent_measure :
      (r : Radio) {p n : String}
      → str_of r.period ≡ some p
      → str_of r.num_per_channel ≡ some n
      → config_radio_measure sender r
        ≡ send_cmd sender ("config_radio_measure" ∷ channel_list r.channels ∷ p ∷ n ∷ [])
  unfolding config_radio_measure
  sent_measure r {p} {n} e f =
      ap
        (λ x. filled x λ period. filled (str_of r.num_per_channel) λ num.
          send_cmd sender ("config_radio_measure" ∷ channel_list r.channels ∷ period ∷ num ∷ []))
        e
      ∙ ap
          (λ x. filled x λ num.
            send_cmd sender ("config_radio_measure" ∷ channel_list r.channels ∷ p ∷ num ∷ []))
          f

  sent_sniffer :
      (r : Radio) {p : String}
      → str_of r.period ≡ some p
      → config_radio_sniffer sender r
        ≡ send_cmd sender ("config_radio_sniffer" ∷ channel_list r.channels ∷ p ∷ [])
  unfolding config_radio_sniffer
  sent_sniffer r e =
      ap
        (λ x. filled x λ period.
          send_cmd sender ("config_radio_sniffer" ∷ channel_list r.channels ∷ period ∷ []))
        e

  unfoldable by_mode : Radio → Json → Action O ℤ
  by_mode r mode =
      if is_word "rssi" mode
      then config_radio_measure sender r
      else if is_word "sniffer" mode
      then config_radio_sniffer sender r
      else raise not_implemented

  IsRssi-Measures : (r : Radio) → IsRssi r → Measures r
  unfolding config_radio by_mode
  IsRssi-Measures r h =
      let (p, e) = str_of-number r.period h.period.1 in
      let (n, f) = str_of-number r.num_per_channel h.num.1 in
      (h.mode, p, n, e, f, ap (by_mode r) h.mode ∙ sent_measure r e f)

  IsSniffer-Sniffs : (r : Radio) → IsSniffer r → Sniffs r
  unfolding config_radio by_mode
  IsSniffer-Sniffs r h =
      let (p, e) = str_of-number r.period h.period.1 in
      (h.mode, p, e, ap (by_mode r) h.mode ∙ sent_sniffer r e)

  -- A radio that the profile was accepted with is set up by one command: in the mode rssi by that of
  -- a measure, with its channels, its period and its time per channel, and in the mode sniffer, the
  -- only other, by that of a sniffer, with its channels and its period.
  pub config_radio-accepted : (v : Json) {r : Radio} → radio_of v ≡ valid r → Measures r ⊎ Sniffs r
  config_radio-accepted v {r} e = elim (radio_of-IsRadio v e).1 [
    | inl h ↦ inl (IsRssi-Measures r h)
    | inr h ↦ inr (IsSniffer-Sniffs r h)
  ]
