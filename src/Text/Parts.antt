-- ===== src/Text/Parts.antt =====
-- `join` undoes `split`: the parts of a text, joined by the separator, are the text.
use Prim.Native.Char.{Char, code}
use Prim.Native.String
use text.Mathlib.TextLemmas.{cons-append, nil-append}
use text.Mathlib.TextEquality.{Char-path}
use iot_lab_gateway.Prelude.{
  ℕ, String, ◌≡◌, ◌≢◌, refl, ◌∙◌, ap, inl, inr, List, [], ◌∷◌, arith, ◌==◌, ==_iff, Bool-cases,
}
use iot_lab_gateway.Text.{join, split, grow}

split-ne-nil : (sep : ℕ) (s : String) → split sep s ≢ []
unfolding split
split-ne-nil sep String.[] e = cc
split-ne-nil sep (String.◌∷◌ c s) e = ground arith

join-grow :
    (sep : String) (c : Char) (ps : List String)
    → ps ≢ []
    → join sep (grow c ps) ≡ String.◌∷◌ c (join sep ps)
unfolding join
join-grow sep c [] h = absurd (h refl)
join-grow sep c (p ∷ []) h = refl
join-grow sep c (p ∷ q ∷ ps) h = cons-append c p (String.◌++◌ sep (join sep (q ∷ ps)))

join-nil_cons :
    (sep : String) (ps : List String) → ps ≢ [] → join sep ("" ∷ ps) ≡ String.◌++◌ sep (join sep ps)
unfolding join
join-nil_cons sep [] h = absurd (h refl)
join-nil_cons sep (p ∷ ps) h = nil-append (String.◌++◌ sep (join sep (p ∷ ps)))

-- The parts of a text, joined by the character at which it was split, are the text.
pub join-split : (sep : Char) (s : String) → join (String.◌∷◌ sep "") (split (code sep) s) ≡ s
unfolding split
join-split sep String.[] = unfold join in refl
join-split sep (String.◌∷◌ c s) =
    let rest = split (code sep) s in
    let some_parts = split-ne-nil (code sep) s in
    elim (Bool-cases (code c == code sep)) [
      | inl hit ↦ rw hit (
          join-nil_cons (String.◌∷◌ sep "") rest some_parts
          ∙ cons-append sep "" (join (String.◌∷◌ sep "") rest)
          ∙ cc (
            nil-append (join (String.◌∷◌ sep "") rest),
            join-split sep s,
            Char-path c sep ((==_iff (code c) (code sep)).0 hit),
          ))
      | inr miss ↦ rw miss (
          join-grow (String.◌∷◌ sep "") c rest some_parts
          ∙ ap (λ t. String.◌∷◌ c t) (join-split sep s))
    ]
