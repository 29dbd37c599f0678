-- ===== src/Autotest/Measures.antt =====
-- gateway_code/autotest/autotest.py, `extract_measures`: the measures of the control node, sorted by
-- kind. Floats are those of the language, which the model takes as an argument.
use iot_lab_gateway.Prelude.{
  ℕ, String, Bool, Option, none, some, List, [], ◌∷◌, same, if◌then◌else◌,
}
use iot_lab_gateway.Prelude.Int.{ℤ}
use iot_lab_gateway.Text.{parse_int}
use iot_lab_gateway.Effects.{
  Action, Result, returned, raised, pure, raise, value_error, index_error,
}

-- `float(text)`, none being its ValueError; `float(n)` of a clock reading; `<`; `len(set(…))` of
-- floats and of tuples; `bisect`; `float('NaN')`.
pub record Floats (F : Type 0) : Type 0 where
  pub float : String → Option F
  pub clock : ℕ → F
  pub less : F → F → Bool
  pub len_set : List F → ℕ
  pub len_set_tuples : List (List F) → ℕ
  pub bisect : List F → F → ℕ
  pub nan : F

-- `meas_dict`, where a kind without measures has two empty lists.
pub record Measures (F : Type 0) : Type 0 where
  pub consumption_values : List (List F)
  pub consumption_timestamps : List F
  pub radio_values : List (List ℤ)
  pub radio_timestamps : List F

abbrev pub no_measures : {F : Type 0} → Measures F
no_measures = record {
  consumption_values = [];
  consumption_timestamps = [];
  radio_values = [];
  radio_timestamps = [];
}

-- `l[:n]` for the three and the two words behind the timestamp.
abbrev pub first_3 : {A : Type 0} → List A → List A
first_3 (a ∷ b ∷ c ∷ rest) = a ∷ b ∷ c ∷ []
first_3 short = short

abbrev pub first_2 : {A : Type 0} → List A → List A
first_2 (a ∷ b ∷ rest) = a ∷ b ∷ []
first_2 short = short

-- Every text converted, up to the first ValueError.
unfoldable pub convert_all : {A : Type 0} → (String → Option A) → List String → Option (List A)
convert_all convert [] = some []
convert_all convert (t ∷ ts) =
    let others = convert_all convert ts in
    elim (convert t) [
      | none ↦ none
      | some a ↦ elim others [ none ↦ none | some rest ↦ some (a ∷ rest) ]
    ]

module _ {F : Type 0} (floats : Floats F) where
  abbrev pub add_consumption : List F → F → Measures F → Measures F
  add_consumption values time m = record m {
    consumption_values = values ∷ m.consumption_values;
    consumption_timestamps = time ∷ m.consumption_timestamps;
  }

  abbrev pub add_radio : List ℤ → F → Measures F → Measures F
  add_radio values time m = record m {
    radio_values = values ∷ m.radio_values;
    radio_timestamps = time ∷ m.radio_timestamps;
  }

  -- The values, then the timestamp in front of them.
  abbrev pub read_measure :
      {A : Type 0}
      → (String → Option A)
      → (List String → List String)
      → (List A → F → Measures F → Measures F)
      → List String
      → Result (Measures F → Measures F)
  read_measure convert slice add [] = raised index_error
  read_measure convert slice add (time ∷ words) = elim (convert_all convert (slice words)) [
    | none ↦ raised value_error
    | some values ↦ elim (floats.float time) [
      | none ↦ raised value_error
      | some t ↦ returned (add values t)
    ]
  ]

  -- What one measure adds; a kind that is not known adds nothing.
  unfoldable pub added : List String → Result (Measures F → Measures F)
  unfolding convert_all
  added [] = raised index_error
  added (tag ∷ []) = raised index_error
  added (tag ∷ kind ∷ rest) =
      if same kind "consumption_measure"
      then read_measure floats.float first_3 add_consumption rest
      else if same kind "radio_measure"
      then read_measure parse_int first_2 add_radio rest
      else returned (λ m. m)

  unfoldable pub extract_measures : List (List String) → Result (Measures F)
  unfolding added
  extract_measures [] = returned no_measures
  extract_measures (meas ∷ rest) =
      let others = extract_measures rest in
      elim (added meas) [
        | raised e ↦ raised e
        | returned add ↦ elim others [ raised e ↦ raised e | returned m ↦ returned (add m) ]
      ]

-- A computation without state, as an action.
abbrev pub from_result : {O A : Type 0} → Result A → Action O A
from_result (returned a) = pure a
from_result (raised e) = raise e
