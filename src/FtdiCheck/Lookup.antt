-- ===== src/FtdiCheck/Lookup.antt =====
-- The search for a description among the devices.
use iot_lab_gateway.Prelude.{
  Option, none, ℕ, suc, leb, length, String, Bool, true, false, ◌≡◌, refl, ◌||◌, some, List, [],
  ◌∷◌, ap, ◌∙◌, arith, if◌then◌else◌,
}
use iot_lab_gateway.Effects.{State, returned}
use iot_lab_gateway.FtdiCheck.{is_described, lookup_loop, ftdi_lookup_description}

-- The four lines that `ftdi-devices-list` writes of a device.
pub record Device : Type 0 where
  pub id : String
  pub manufacturer : String
  pub description : String
  pub serial : String

-- The lines of the devices, and the last line, `All done, success!`, if it is there.
abbrev pub listing : Option String → List Device → List String
listing none [] = []
listing (some last) [] = last ∷ []
listing end (d ∷ ds) = d.id ∷ d.manufacturer ∷ d.description ∷ d.serial ∷ listing end ds

-- One of the devices has the description.
abbrev pub some_described : String → List Device → Bool
some_described description [] = false
some_described description (d ∷ ds) =
    is_described description d.description || some_described description ds

either : (b c : Bool) → (if b then some true else some c) ≡ some (b || c)
either true c = refl
either false c = refl

lookup_loop-listing :
    (description : String) (end : Option String) (ds : List Device)
    → lookup_loop description (listing end ds) ≡ some (some_described description ds)
unfolding lookup_loop
lookup_loop-listing description none [] = refl
lookup_loop-listing description (some last) [] = refl
lookup_loop-listing description end (d ∷ ds) =
    ap (λ later. if is_described description d.description then some true else later)
      (lookup_loop-listing description end ds)
    ∙ either (is_described description d.description) (some_described description ds)

long_enough : (n : ℕ) → leb 4 (suc (suc (suc (suc n)))) ≡ true
long_enough n = ground arith

-- In the listing of one device or more, with or without a last line of its own,
-- ftdi_lookup_description raises nothing, and returns whether
-- the description of one of them is the one that is looked for.
pub ftdi_lookup_description-listing :
    {O : Type 0} (description : String) (end : Option String) (d : Device) (ds : List Device)
    (s : State O)
    → ftdi_lookup_description (listing end (d ∷ ds)) description s
      ≡ (returned (some_described description (d ∷ ds)), s)
unfolding ftdi_lookup_description
ftdi_lookup_description-listing description end d ds s =
    rw (lookup_loop-listing description end (d ∷ ds), long_enough (length (listing end ds))) refl
