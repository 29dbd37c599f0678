-- ===== src/Profile/Supply.antt =====
-- What `Consumption.__init__` accepts.
use iot_lab_gateway.Prelude.{
  ℕ, String, Bool, ◌≡◌, ◌≢◌, ◌⊎◌, inl, inr, refl, true, false, List, [], ◌∷◌, member, number_member,
  arith, eq_iff, Bool-cases, not, ◌&&◌, if◌then◌else◌,
}
use iot_lab_gateway.Prelude.Int.{ℤ, pos, negsuc}
use iot_lab_gateway.Json.{Json, null, flag, number, text, arr, obj, is_word, find, keys_within}
use iot_lab_gateway.Profile.{
  ◌>>◌, is_null, Checked, valid, Consumption, one_of, int_of, periods, averages, consumption_init,
  consumption_of, >>=-eq-valid, accepts, required,
}
use iot_lab_gateway.Profile.Spec.{IsConsumption}
use iot_lab_gateway.Profile.Validation.{check-valid}

number_member-one_of :
    (choices : List ℕ) (v : ℤ) {n : ℕ} → one_of choices v ≡ valid n → number_member n choices ≡ true
number_member-one_of choices (pos m) h =
    let (listed, e) = check-valid (number_member m choices) _ h in cc (listed, e)
number_member-one_of choices (negsuc m) h = cc h

accepts-valid :
    {B : Type 0} (b : Bool) (m : Checked B) {x : B} → (accepts b >> m) ≡ valid x → m ≡ valid x
accepts-valid true m h = h
accepts-valid false m h = cc h

is_word-text : (word : String) (v : Json) → is_word word v ≡ true → v ≡ text word
is_word-text word (text s) e = ground (arith, eq_iff s word)
is_word-text word null e = cc e
is_word-text word (flag b) e = cc e
is_word-text word (number n) e = cc e
is_word-text word (arr is) e = cc e
is_word-text word (obj fs) e = cc e

is_word-other : (word : String) (v : Json) → is_word word v ≡ false → v ≢ text word
is_word-other word v e h = ground (arith, eq_iff word word, e, h)

known_supply :
    (alim : String) → member alim ("3.3V" ∷ "5V" ∷ []) ≡ true → (alim ≡ "3.3V") ⊎ (alim ≡ "5V")
known_supply alim e = ground (arith, eq_iff alim "3.3V", eq_iff alim "5V")

consumption_init-IsConsumption :
    (alim : String) (source period average power voltage current : Json) {c : Consumption}
    → consumption_init alim source period average power voltage current ≡ valid c
    → IsConsumption alim source c
unfolding consumption_init
consumption_init-IsConsumption alim source period average power voltage current {c} h =
    let (given, h1) = check-valid (not (is_null period) && not (is_null average)) _ h in
    let (p, ep, h2) = >>=-eq-valid (int_of period) _ h1 in
    let (a, ea, h3) = >>=-eq-valid (int_of average) _ h2 in
    let (p', lp, h4) = >>=-eq-valid (one_of periods p) _ h3 in
    let (a', la, h5) = >>=-eq-valid (one_of averages a) _ h4 in
    let (known, h6) = check-valid (member alim ("3.3V" ∷ "5V" ∷ [])) _ h5 in
    let same : c ≡ record {
      source = if is_word "dc" source then alim else "BATT";
      period = p';
      average = a';
      power = power;
      voltage = voltage;
      current = current;
    } =
      cc h6 in
    rw same (record {
      period = number_member-one_of periods p lp;
      average = number_member-one_of averages a la;
      supply = elim (Bool-cases (is_word "dc" source)) [
        | inl e ↦ inl (is_word-text "dc" source e, rw e refl)
        | inr e ↦ inr (is_word-other "dc" source e, rw e refl)
      ];
      known = known_supply alim known;
    })

-- Every consumption that the constructor accepts has a period and an average that the hardware
-- offers, and measures the supply of the node, 3.3V or 5V, where the profile's power is dc, and
-- the battery with any other power.
pub consumption_of-IsConsumption :
    (alim : String) (source dict : Json) {c : Consumption}
    → consumption_of alim source dict ≡ valid c
    → IsConsumption alim source c
unfolding consumption_of
consumption_of-IsConsumption alim source (obj d) h =
    let h1 =
      accepts-valid (keys_within ("period" ∷ "average" ∷ "power" ∷ "voltage" ∷ "current" ∷ []) d) _
        h in
    let (period, ep, h2) = >>=-eq-valid (required (find "period" d)) _ h1 in
    let (average, ea, h3) = >>=-eq-valid (required (find "average" d)) _ h2 in
    consumption_init-IsConsumption alim source period average _ _ _ h3
consumption_of-IsConsumption alim source null h = cc h
consumption_of-IsConsumption alim source (flag b) h = cc h
consumption_of-IsConsumption alim source (number n) h = cc h
consumption_of-IsConsumption alim source (text t) h = cc h
consumption_of-IsConsumption alim source (arr is) h = cc h
