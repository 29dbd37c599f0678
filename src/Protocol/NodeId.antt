-- ===== src/Protocol/NodeId.antt =====
-- How a node's identifier is taken apart.
use Prim.Native.String
use iot_lab_gateway.Prelude.{String, ◌≡◌, refl, sym, ap, ◌∙◌, Option, none, some, List, [], ◌∷◌}
use iot_lab_gateway.Prelude.Int.{ℤ}
use iot_lab_gateway.Text.{split, join, replace, parse_int, str_int}
use text.Mathlib.TextLemmas.{cons-append, nil-append}
use iot_lab_gateway.Text.Parts.{join-split}
use iot_lab_gateway.Protocol.{numbered, init, last, set_node_id_args}

append_assoc : (a b c : String) → String.◌++◌ (String.◌++◌ a b) c ≡ String.◌++◌ a (String.◌++◌ b c)
append_assoc String.[] b c =
    ap (λ x. String.◌++◌ x c) (nil-append b) ∙ sym (nil-append (String.◌++◌ b c))
append_assoc (String.◌∷◌ x a) b c =
    ap (λ y. String.◌++◌ y c) (cons-append x a b)
    ∙ cons-append x (String.◌++◌ a b) c
    ∙ ap (λ y. String.◌∷◌ x y) (append_assoc a b c)
    ∙ sym (cons-append x a (String.◌++◌ b c))

-- The parts but the last, joined, then the last one: the parts joined.
join-init-last :
    (sep p q : String) (ps : List String)
    → join sep (join sep (init (p ∷ q ∷ ps)) ∷ last (p ∷ q ∷ ps) ∷ []) ≡ join sep (p ∷ q ∷ ps)
unfolding join
join-init-last sep p q [] = refl
join-init-last sep p q (r ∷ rs) =
    let front = join sep (init (q ∷ r ∷ rs)) in
    let back = String.◌++◌ sep (last (q ∷ r ∷ rs)) in
    append_assoc p (String.◌++◌ sep front) back
    ∙ ap (λ x. String.◌++◌ p x) (append_assoc sep front back)
    ∙ ap (λ x. String.◌++◌ p (String.◌++◌ sep x)) (join-init-last sep q r rs)

numbered-parts :
    (parts : List String) (o : Option ℤ) {archi num : String}
    → numbered parts o ≡ some (archi, num)
    → (k : ℤ) × (o ≡ some k) × (num ≡ str_int k) × (archi ≡ join "-" (init parts))
numbered-parts parts none h = cc h
numbered-parts parts (some k) h = (k, refl, cc h, cc h)

-- Of an identifier with a dash or an underscore: the architecture and the text behind the last of
-- them, joined by a dash, are the identifier with dashes for underscores, and the number is the
-- integer that this text reads as, in its shortest form.
pub set_node_id_args_lem :
    (node_id p q : String) (ps : List String) {archi num : String}
    → split b'-' (replace b'_' "-" node_id) ≡ p ∷ q ∷ ps
    → set_node_id_args node_id ≡ some (archi, num)
    → (join "-" (archi ∷ last (p ∷ q ∷ ps) ∷ []) ≡ replace b'_' "-" node_id)
      × ((k : ℤ) × (parse_int (last (p ∷ q ∷ ps)) ≡ some k) × (num ≡ str_int k))
unfolding set_node_id_args
set_node_id_args_lem node_id p q ps e h =
    let (k, read, number, front) =
      numbered-parts (p ∷ q ∷ ps) (parse_int (last (p ∷ q ∷ ps)))
        (sym (ap (λ x. numbered x (parse_int (last x))) e) ∙ h) in
    (
      ap (λ x. join "-" (x ∷ last (p ∷ q ∷ ps) ∷ [])) front
          ∙ join-init-last "-" p q ps
          ∙ sym (ap (join "-") e)
          ∙ join-split "-" (replace b'_' "-" node_id),
      (k, read, number),
    )
