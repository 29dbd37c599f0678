-- ===== src/Profile/Acceptance.antt =====
-- Every valid radio is accepted, as it is, from the dictionary that describes it.
use iot_lab_gateway.Prelude.{
  ℕ, suc, String, same, not, ◌||◌, false, ◌≤◌, ◌≡◌, ◌≢◌, refl, inl, inr, true, false, List, [], ◌∷◌,
  arith, All, length, if◌then◌else◌, ◌==◌,
}
use iot_lab_gateway.Prelude.Int.{pos}
use iot_lab_gateway.Json.{Json, text, arr, truthy, is_word, or_else, number}
use iot_lab_gateway.Profile.{
  valid, Radio, channels_of, radio_is_valid, radio_init, radio_of, iterate_channels, in_range,
  is_null, is_nonzero,
}
use iot_lab_gateway.Profile.Spec.{Within, IsRssi, IsSniffer, IsRadio, items_of, radio_json}

channels_of-items_of :
    (cs : List ℕ) → All (λ c. (11 ≤ c) × (c ≤ 26)) cs → channels_of (items_of cs) ≡ valid cs
unfolding channels_of
channels_of-items_of [] h = refl
channels_of-items_of (c ∷ cs) h = ground (arith, channels_of-items_of cs h.1)

Within-in_range : (low high : ℕ) (v : Json) → Within low high v → in_range low (suc high) v ≡ true
Within-in_range low high v (n, e, l, h) = ground arith

Within-not_null : (low high : ℕ) (v : Json) → Within low high v → is_null v ≡ false
Within-not_null low high v (n, e, l, h) = ground arith

is_word-text : (word : String) {v : Json} (t : String) → v ≡ text t → is_word word v ≡ same t word
is_word-text word t e = rw e

radio_is_valid-rssi : (r : Radio) → IsRssi r → radio_is_valid r ≡ valid r
unfolding radio_is_valid
radio_is_valid-rssi r h =
    let hop : (length r.channels == 1 || is_nonzero r.num_per_channel) ≡ true = ground arith in
    rw (
      is_word-text "rssi" "rssi" h.mode,
      Within-not_null 1 65535 r.period h.period,
      hop,
      Within-in_range 1 65535 r.period h.period,
      Within-in_range 0 255 r.num_per_channel h.num,
    )

kept_period : (r : Radio) → IsSniffer r → or_else r.period (number (pos 0)) ≡ r.period
kept_period r h = elim h.hopping [ inl (t, many) ↦ rw t | inr (e, one) ↦ rw e ]

radio_is_valid-sniffer : (r : Radio) → IsSniffer r → radio_is_valid r ≡ valid r
unfolding radio_is_valid
radio_is_valid-sniffer r h =
    let hop : (if truthy r.period then not (length r.channels == 1) else length r.channels == 1)
        ≡ true =
      elim h.hopping [ inl (t, many) ↦ rw t (ground arith) | inr (e, one) ↦ rw (e, one) ] in
    rw (
      is_word-text "rssi" "sniffer" h.mode,
      is_word-text "sniffer" "sniffer" h.mode,
      kept_period r h,
      Within-in_range 0 65535 r.period h.period,
      hop,
      h.no_num,
    )

iterate_channels-truthy : (cs : List ℕ) → cs ≢ [] → truthy (arr (items_of cs)) ≡ true
iterate_channels-truthy [] h = absurd (h refl)
iterate_channels-truthy (c ∷ cs) h = refl

radio_is_valid-IsRadio : (r : Radio) → IsRadio r → radio_is_valid r ≡ valid r
radio_is_valid-IsRadio r (_, inl h) = radio_is_valid-rssi r h
radio_is_valid-IsRadio r (_, inr h) = radio_is_valid-sniffer r h

-- Every radio with `IsRadio` is accepted from its JSON dictionary, unchanged.
pub radio_of-radio_json : (r : Radio) → IsRadio r → radio_of (radio_json r) ≡ valid r
unfolding radio_of radio_init iterate_channels
radio_of-radio_json r h =
    rw
      (
        iterate_channels-truthy r.channels h.0.some_channel,
        channels_of-items_of r.channels h.0.each,
      )
      (radio_is_valid-IsRadio r h)
