-- ===== src/Profile/Validation.antt =====
-- The constructors of profile.py accept exactly the valid configurations.
use iot_lab_gateway.Prelude.{
  ℕ, suc, ◌≤◌, String, ◌≡◌, ◌≢◌, refl, ◌∙◌, ◌⊎◌, inl, inr, Bool, true, false, List, [], ◌∷◌, arith,
  All, length, eq_iff, Bool-cases, if◌then◌else◌, ◌==◌, ap, ◌||◌, not,
}
use iot_lab_gateway.Prelude.Int.{pos}
use iot_lab_gateway.Json.{
  Json, flag, number, text, arr, obj, Items, nil, cons, truthy, is_word, or_else, find,
  find_or_null,
}
use iot_lab_gateway.Profile.{
  Checked, valid, Radio, in_range, is_nonzero, is_null, channels_of, channel_of, >>=-eq-valid,
  radio_is_valid, radio_init, ◌>>◌, check, accepts, required, iterate_channels, radio_of,
}
use iot_lab_gateway.Profile.Spec.{Within, HasChannels, IsRssi, IsSniffer, IsRadio}

in_range-Within : (low high : ℕ) (v : Json) → in_range low (suc high) v ≡ true → Within low high v
in_range-Within low high (flag true) h = (1, refl, ground arith, ground arith)
in_range-Within low high (flag false) h = (0, refl, ground arith, ground arith)
in_range-Within low high (number (pos n)) h = (n, refl, ground arith, ground arith)
in_range-Within low high _ h = cc

is_word-eq : (word : String) (v : Json) → is_word word v ≡ true → v ≡ text word
is_word-eq word (text s) h = ap text ((eq_iff s word).0 h)
is_word-eq word _ h = cc

channel_of-range : (v : Json) {n : ℕ} → channel_of v ≡ valid n → (11 ≤ n) × (n ≤ 26)
unfolding channel_of
channel_of-range v h = ground arith

channels_of-each :
    (items : Items) {cs : List ℕ} → channels_of items ≡ valid cs → All (λ c. (11 ≤ c) × (c ≤ 26)) cs
unfolding channels_of
channels_of-each nil {cs} h = let e : cs ≡ [] = cc h in rw e tt
channels_of-each (cons v rest) {cs} h =
    let (n, first, h') = >>=-eq-valid (channel_of v) _ h in
    let (ns, others, h'') = >>=-eq-valid (channels_of rest) _ h' in
    let e : cs ≡ n ∷ ns = cc h'' in rw e (channel_of-range v first, channels_of-each rest others)

-- The checks that an accepted radio has passed.
abbrev RssiChecks : Radio → Type 0
RssiChecks r =
    ((length r.channels == 1 || is_nonzero r.num_per_channel) ≡ true)
    × (in_range 1 65536 r.period ≡ true)
    × (in_range 0 256 r.num_per_channel ≡ true)

abbrev SnifferChecks : Radio → Type 0
SnifferChecks r =
    (in_range 0 65536 r.period ≡ true)
    × ((if truthy r.period then not (length r.channels == 1) else length r.channels == 1) ≡ true)
    × (is_null r.num_per_channel ≡ true)

pub check-valid :
    {B : Type 0} (b : Bool) (m : Checked B) {x : B}
    → (check b >> m) ≡ valid x
    → (b ≡ true) × (m ≡ valid x)
check-valid true m h = (refl, h)
check-valid false m h = cc

rssi-checks :
    (r : Radio) {r' : Radio}
    → is_word "rssi" r.mode ≡ true
    → radio_is_valid r ≡ valid r'
    → (r' ≡ r) × RssiChecks r
unfolding radio_is_valid
rssi-checks r w h =
    let h1 = check-valid _ _ (rw w at h) in
    let h2 = check-valid _ _ h1.1 in
    let h3 = check-valid _ _ h2.1 in
    let h4 = check-valid _ (valid r) h3.1 in (cc h4.1, (h2.0, h3.0, h4.0))

sniffer-checks :
    (r : Radio) {r' : Radio}
    → is_word "rssi" r.mode ≡ false
    → radio_is_valid r ≡ valid r'
    → (r' ≡ record r { period = or_else r.period (number (pos 0)) })
      × (is_word "sniffer" r'.mode ≡ true)
      × SnifferChecks r'
unfolding radio_is_valid
sniffer-checks r {r'} w h = elim (Bool-cases (is_word "sniffer" r.mode)) [
  | inr other ↦ let bad = rw (w, other) at h in cc bad
  | inl sniffing ↦
      let h1 = check-valid _ _ (rw (w, sniffing) at h) in
      let h2 = check-valid _ _ h1.1 in
      let h3 = check-valid _ _ h2.1 in
      let e : r' ≡ record r { period = or_else r.period (number (pos 0)) } = cc h3.1 in
      rw e (refl, sniffing, (h1.0, h2.0, h3.0))
]

IsRssi-checks : (r : Radio) → is_word "rssi" r.mode ≡ true → RssiChecks r → IsRssi r
IsRssi-checks r w (hop, period, num) = record {
  mode = is_word-eq "rssi" r.mode w;
  period = in_range-Within 1 65535 r.period period;
  num = in_range-Within 0 255 r.num_per_channel num;
  hopping = ground arith;
}

falsy-or_else :
    (v : Json)
    → truthy (or_else v (number (pos 0))) ≡ false
    → or_else v (number (pos 0)) ≡ number (pos 0)
falsy-or_else v h = elim (Bool-cases (truthy v)) [
  | inl t ↦ let bad = rw t at h in cc (t, bad)
  | inr f ↦ rw f
]

IsSniffer-checks :
    (r : Radio) (given : Json)
    → r.period ≡ or_else given (number (pos 0))
    → is_word "sniffer" r.mode ≡ true
    → SnifferChecks r
    → IsSniffer r
IsSniffer-checks r given e w (period, hop, num) = record {
  mode = is_word-eq "sniffer" r.mode w;
  period = in_range-Within 0 65535 r.period period;
  hopping = elim (Bool-cases (truthy r.period)) [
    | inl t ↦ inl (t, ground arith)
    | inr f ↦ inr (e ∙ falsy-or_else given (rw e at f), ground arith)
  ];
  no_num = ground arith;
}

radio_is_valid-IsRadio :
    (r : Radio) {r' : Radio}
    → radio_is_valid r ≡ valid r'
    → (r'.channels ≡ r.channels) × (IsRssi r' ⊎ IsSniffer r')
radio_is_valid-IsRadio r {r'} h = elim (Bool-cases (is_word "rssi" r.mode)) [
  | inl rssi ↦
      let (e, checks) = rssi-checks r rssi h in rw e (refl, inl (IsRssi-checks r rssi checks))
  | inr other ↦
      let (e, sniffing, checks) = sniffer-checks r other h in
      (
        ap (λ (x : Radio). x.channels) e,
        inr (IsSniffer-checks r' r.period (ap (λ (x : Radio). x.period) e) sniffing checks),
      )
]

channels_of-nonempty :
    (items : Items) {cs : List ℕ}
    → truthy (arr items) ≡ true
    → channels_of items ≡ valid cs
    → cs ≢ []
unfolding channels_of
channels_of-nonempty nil t h = cc
channels_of-nonempty (cons v rest) {cs} t h =
    let (n, first, h') = >>=-eq-valid (channel_of v) _ h in
    let (ns, others, h'') = >>=-eq-valid (channels_of rest) _ h' in λ empty. cc (h'', empty)

iterate_channels-HasChannels :
    (v : Json) {cs : List ℕ} → truthy v ≡ true → iterate_channels v ≡ valid cs → HasChannels cs
unfolding iterate_channels
iterate_channels-HasChannels (arr items) t h = record {
  some_channel = channels_of-nonempty items t h;
  each = channels_of-each items h;
}
iterate_channels-HasChannels _ t h = cc

radio_init-IsRadio :
    (mode channels period num : Json) {r : Radio}
    → radio_init mode channels period num ≡ valid r
    → IsRadio r
unfolding radio_init
radio_init-IsRadio mode channels period num h =
    let (some_channel, h1) = check-valid _ _ h in
    let (cs, listed, h2) = >>=-eq-valid (iterate_channels channels) _ h1 in
    let (same_channels, kind) =
      radio_is_valid-IsRadio
        (record { mode = mode; channels = cs; period = period; num_per_channel = num }) h2 in
    (rw same_channels (iterate_channels-HasChannels channels some_channel listed), kind)

accepts-valid :
    {B : Type 0} (b : Bool) (m : Checked B) {x : B} → (accepts b >> m) ≡ valid x → m ≡ valid x
accepts-valid true m h = h
accepts-valid false m h = cc

-- Every radio that `Radio(**radio)` builds, from whatever JSON, has channels in 11..26 and is a
-- valid signal strength measure or a valid sniffer.
pub radio_of-IsRadio : (v : Json) {r : Radio} → radio_of v ≡ valid r → IsRadio r
unfolding radio_of
radio_of-IsRadio (obj d) h =
    let h1 = accepts-valid _ _ h in
    let (mode, _, h2) = >>=-eq-valid (required (find "mode" d)) _ h1 in
    let (channels, _, h3) = >>=-eq-valid (required (find "channels" d)) _ h2 in
    radio_init-IsRadio mode channels (find_or_null "period" d) (find_or_null "num_per_channel" d) h3
radio_of-IsRadio _ h = cc
