-- ===== src/Profile/Spec.antt =====
-- What a profile promises to the control node, stated on the values alone.
use iot_lab_gateway.Prelude.{
  ℕ, String, ◌≡◌, ◌≢◌, ◌≤◌, ◌⊎◌, true, some, List, [], ◌∷◌, All, length, number_member,
}
use iot_lab_gateway.Prelude.Int.{pos}
use iot_lab_gateway.Json.{
  Json, null, number, text, arr, obj, Items, nil, cons, end, field, truthy, as_number,
}
use iot_lab_gateway.Profile.{Consumption, Radio, periods, averages}

-- The value equals an integer of the range.
abbrev pub Within : ℕ → ℕ → Json → Type 0
Within low high v = (n : ℕ) × (as_number v ≡ some (pos n)) × (low ≤ n) × (n ≤ high)

-- Channels of IEEE 802.15.4, at least one.
pub record HasChannels (channels : List ℕ) : Type 0 where
  pub some_channel : channels ≢ []
  pub each : All (λ c. (11 ≤ c) × (c ≤ 26)) channels

-- A measure of the signal strength: with several channels it says how long to stay on each.
pub record IsRssi (r : Radio) : Type 0 where
  pub mode : r.mode ≡ text "rssi"
  pub period : Within 1 65535 r.period
  pub num : Within 0 255 r.num_per_channel
  pub hopping : (length r.channels ≡ 1) ⊎ (as_number r.num_per_channel ≢ some (pos 0))

-- A sniffer has a period other than 0 exactly if it hops between channels.
pub record IsSniffer (r : Radio) : Type 0 where
  pub mode : r.mode ≡ text "sniffer"
  pub period : Within 0 65535 r.period
  pub hopping :
      (truthy r.period ≡ true) × (length r.channels ≢ 1)
      ⊎ (r.period ≡ number (pos 0)) × (length r.channels ≡ 1)
  pub no_num : r.num_per_channel ≡ null

abbrev pub IsRadio : Radio → Type 0
IsRadio r = HasChannels r.channels × (IsRssi r ⊎ IsSniffer r)

pub record IsConsumption (alim : String) (source : Json) (c : Consumption) : Type 0 where
  pub period : number_member c.period periods ≡ true
  pub average : number_member c.average averages ≡ true
  pub supply : (source ≡ text "dc") × (c.source ≡ alim) ⊎ (source ≢ text "dc") × (c.source ≡ "BATT")
  pub known : (alim ≡ "3.3V") ⊎ (alim ≡ "5V")

-- The channels as JSON, and a radio as the dictionary that describes it.
abbrev pub items_of : List ℕ → Items
items_of [] = nil
items_of (c ∷ cs) = cons (number (pos c)) (items_of cs)

abbrev pub radio_json : Radio → Json
radio_json r = obj (
    field "mode" r.mode (
      field "channels" (arr (items_of r.channels))
        (field "period" r.period (field "num_per_channel" r.num_per_channel end))))
