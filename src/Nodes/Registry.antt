-- ===== src/Nodes/Registry.antt =====
-- What the registry holds.
use iot_lab_gateway.Prelude.{
  String, true, ◌≡◌, refl, Option, none, some, List, [], ◌∷◌, same, ap, ◌∙◌, arith, eq_iff,
  if◌then◌else◌,
}
use iot_lab_gateway.Effects.{
  State, Result, Action, pure, raise, returned, raised, value_error, assertion_error,
}
use iot_lab_gateway.Nodes.{put, get, import_all_nodes, node_class}

abbrev or_else : {N : Type 0} → Option N → Option N → Option N
or_else none d = d
or_else (some c) d = some c

or_else_assoc : {N : Type 0} (a b c : Option N) → or_else a (or_else b c) ≡ or_else (or_else a b) c
or_else_assoc none b c = refl
or_else_assoc (some n) b c = refl

or_else-none : {N : Type 0} (a : Option N) → or_else a none ≡ a
or_else-none none = refl
or_else-none (some c) = refl

module _ {N : Type 0} (type_name : N → String) where
  abbrev only : String → N → Option N
  only key class = if same (type_name class) key then some class else none

  -- The last class of this type.
  abbrev pub last_of : String → List N → Option N
  last_of key [] = none
  last_of key (class ∷ classes) = or_else (last_of key classes) (only key class)

  get-put :
      (key : String) (class : N) (registry : List (String × N))
      → get type_name key (put type_name (type_name class) class registry)
        ≡ or_else (only key class) (get type_name key registry)
  get-put key class [] = ground arith
  get-put key class ((k, c) ∷ rest) =
      let name = type_name class in
      ground (arith, eq_iff k name, eq_iff k key, eq_iff name key, get-put key class rest)

  get-import_all_nodes :
      (key : String) (classes : List N) (registry : List (String × N))
      → get type_name key (import_all_nodes type_name classes registry)
        ≡ or_else (last_of key classes) (get type_name key registry)
  unfolding import_all_nodes
  get-import_all_nodes key [] registry = refl
  get-import_all_nodes key (class ∷ classes) registry =
      get-import_all_nodes key classes (put type_name (type_name class) class registry)
      ∙ ap (or_else (last_of key classes)) (get-put key class registry)
      ∙ or_else_assoc (last_of key classes) (only key class) (get type_name key registry)

  only-type :
      (key : String) (d class : N) → only key d ≡ some class → same (type_name class) key ≡ true
  only-type key d class e = grind arith

  either-type :
      (key : String) (o : Option N) (d class : N)
      → (o ≡ some class → same (type_name class) key ≡ true)
      → or_else o (only key d) ≡ some class
      → same (type_name class) key ≡ true
  either-type key none d class h e = only-type key d class e
  either-type key (some c) d class h e = h e

  last_of-type :
      (key : String) (classes : List N) (class : N)
      → last_of key classes ≡ some class
      → same (type_name class) key ≡ true
  last_of-type key [] class e = cc e
  last_of-type key (d ∷ classes) class e =
      either-type key (last_of key classes) d class (last_of-type key classes class) e

  -- ValueError without a class.
  abbrev pub class_or_error : Option N → Result N
  class_or_error none = raised value_error
  class_or_error (some class) = returned class

  module _ {O : Type 0} where
    abbrev chosen : String → Option N → Action O N
    chosen board_type o = elim o [
      | none ↦ raise value_error
      | some class ↦ if same (type_name class) board_type then pure class else raise assertion_error
    ]

    found :
        (key : String) (o : Option N) (s : State O)
        → ((class : N) → o ≡ some class → same (type_name class) key ≡ true)
        → chosen key o s ≡ (class_or_error o, s)
    found key none s h = refl
    found key (some class) s h = rw (h class refl) refl

    -- Of the classes that were imported, a board type gets the last one with this TYPE; without any
    -- it raises ValueError. The assertion on the class does not fail.
    pub node_class-last_of :
        (classes : List N) (board_type : String) (s : State O)
        → node_class type_name (import_all_nodes type_name classes []) board_type s
          ≡ (class_or_error (last_of board_type classes), s)
    unfolding node_class
    node_class-last_of classes board_type s =
        ap (λ o. chosen board_type o s)
          (get-import_all_nodes board_type classes [] ∙ or_else-none (last_of board_type classes))
        ∙ found board_type (last_of board_type classes) s (last_of-type board_type classes)
