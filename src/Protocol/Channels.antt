-- ===== src/Protocol/Channels.antt =====
-- The channel list of a radio command: increasing, and with the channels that were asked for.
use iot_lab_gateway.Prelude.{
  ℕ, ◌<◌, ◌≡◌, refl, ◌∙◌, ap, ◌||◌, List, [], ◌∷◌, arith, ltb, ◌==◌, All, number_member, Bool-cases,
  inl, inr,
}
use iot_lab_gateway.Protocol.{add_channel, sorted_channels}

-- Every channel is below those behind it.
abbrev pub IsIncreasing : List ℕ → Type 0
IsIncreasing [] = Unit
IsIncreasing (c ∷ cs) = All (λ d. c < d) cs × IsIncreasing cs

All-lt_trans : (c d : ℕ) (cs : List ℕ) → c < d → All (λ e. d < e) cs → All (λ e. c < e) cs
All-lt_trans c d [] h a = tt
All-lt_trans c d (e ∷ cs) h a = (omega arith, All-lt_trans c d cs h a.1)

add_channel-All :
    (b c : ℕ) (cs : List ℕ) → b < c → All (λ d. b < d) cs → All (λ d. b < d) (add_channel c cs)
unfolding add_channel
add_channel-All b c [] h a = (h, tt)
add_channel-All b c (d ∷ ds) h a = ground (arith, add_channel-All b c ds h a.1)

add_channel-IsIncreasing : (c : ℕ) (cs : List ℕ) → IsIncreasing cs → IsIncreasing (add_channel c cs)
unfolding add_channel
add_channel-IsIncreasing c [] h = (tt, tt)
add_channel-IsIncreasing c (d ∷ ds) h = elim (Bool-cases (ltb c d)) [
  | inl below ↦ rw below ((ground arith, All-lt_trans c d ds (ground arith) h.0), h)
  | inr other ↦ elim (Bool-cases (c == d)) [
    | inl equal ↦ rw (other, equal) h
    | inr above ↦
        rw (other, above)
          (add_channel-All d c ds (ground arith) h.0, add_channel-IsIncreasing c ds h.1)
  ]
]

number_member-add_channel :
    (x c : ℕ) (cs : List ℕ) → number_member x (add_channel c cs) ≡ (x == c || number_member x cs)
unfolding add_channel
number_member-add_channel x c [] = refl
number_member-add_channel x c (d ∷ ds) = ground (arith, number_member-add_channel x c ds)

sorted_channels-IsIncreasing : (cs : List ℕ) → IsIncreasing (sorted_channels cs)
unfolding sorted_channels
sorted_channels-IsIncreasing [] = tt
sorted_channels-IsIncreasing (c ∷ cs) =
    add_channel-IsIncreasing c (sorted_channels cs) (sorted_channels-IsIncreasing cs)

number_member-sorted_channels :
    (x : ℕ) (cs : List ℕ) → number_member x (sorted_channels cs) ≡ number_member x cs
unfolding sorted_channels
number_member-sorted_channels x [] = refl
number_member-sorted_channels x (c ∷ cs) =
    number_member-add_channel x c (sorted_channels cs)
    ∙ ap (λ b. x == c || b) (number_member-sorted_channels x cs)

-- The sorted channels are strictly increasing, and are exactly the channels of the list given.
pub sorted_channels_lem :
    (cs : List ℕ)
    → IsIncreasing (sorted_channels cs)
      × ((x : ℕ) → number_member x (sorted_channels cs) ≡ number_member x cs)
sorted_channels_lem cs = (sorted_channels-IsIncreasing cs, λ x. number_member-sorted_channels x cs)
