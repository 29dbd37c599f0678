-- ===== src/Nodes.antt =====
-- gateway_code/nodes.py: the registry of node classes, and the check of an open node class.
pub mod Registry
pub mod Verifying
use iot_lab_gateway.Prelude.{
  String, Bool, true, false, ◌&&◌, Option, none, some, List, [], ◌∷◌, same, member, if◌then◌else◌,
}
use iot_lab_gateway.Prelude.Int.{ℤ, pos, ◌==ℤ◌}
use iot_lab_gateway.Effects.{World, Action, pure, raise, total, ◌>>=◌, value_error, assertion_error}
use iot_lab_gateway.ElfTarget.{is_compatible_with_node}

-- The attributes that `verify` looks at; a class may lack each of them.
pub record Verified : Type 0 where
  pub elf_target : Option (String × String)
  pub fw_idle : Option String
  pub fw_autotest : Option String
  pub autotest_available : Option (List String)

module _ {O : Type 0} (world : World) (class : Verified) where
  abbrev verify_target : Option (String × String) → Action O ℤ
  verify_target none = pure (pos 1)
  verify_target (some target) = pure (pos 0)

  abbrev verify_firmware : Option String → Action O ℤ
  verify_firmware none = pure (pos 0)
  verify_firmware (some firmware) = do
    compatible ← is_compatible_with_node world (some firmware) class.elf_target
    if compatible then pure (pos 0) else pure (pos 1)

  abbrev verify_autotest : Option (List String) → Action O ℤ
  verify_autotest none = pure (pos 1)
  verify_autotest (some available) =
      if member "echo" available && member "get_time" available then pure (pos 0) else pure (pos 1)

  unfoldable pub verify : Action O ℤ
  verify = total (
      verify_target class.elf_target
      ∷ verify_firmware class.fw_idle
      ∷ verify_firmware class.fw_autotest
      ∷ verify_autotest class.autotest_available
      ∷ [])

-- The method `verify` of a class: that of `OpenNodeBase`, with the attributes of the class, or one of
-- its own that returns 0, as in node_a8.py, node_rpi3.py and common/node_no.py.
pub data Verifier : Type 0 where
  inherited : Verified → Verifier
  overridden : Verifier

unfoldable pub verify_class : {O : Type 0} → World → Verifier → Action O ℤ
unfolding verify
verify_class world (inherited attributes) = verify world attributes
verify_class world overridden = pure (pos 0)

-- Classes of a type `N`, whose `TYPE` is given.
module _ {N : Type 0} (type_name : N → String) where
  -- `REGISTRY[key] = class`
  abbrev pub put : String → N → List (String × N) → List (String × N)
  put key class [] = (key, class) ∷ []
  put key class ((k, c) ∷ rest) =
      if same k key then (k, class) ∷ rest else (k, c) ∷ put key class rest

  -- `REGISTRY[key]`; none is a KeyError.
  abbrev pub get : String → List (String × N) → Option N
  get key [] = none
  get key ((k, c) ∷ rest) = if same k key then some c else get key rest

  -- `import_all_nodes`, for the classes that it finds, in that order.
  unfoldable pub import_all_nodes : List N → List (String × N) → List (String × N)
  import_all_nodes [] registry = registry
  import_all_nodes (class ∷ classes) registry =
      import_all_nodes classes (put (type_name class) class registry)

  module _ {O : Type 0} where
    -- `_node_class`, and `control_node_class`
    unfoldable pub node_class : List (String × N) → String → Action O N
    node_class registry board_type = elim (get board_type registry) [
      | none ↦ raise value_error
      | some class ↦ if same (type_name class) board_type then pure class else raise assertion_error
    ]

    unfoldable pub open_node_class :
        World → (N → Verifier) → List (String × N) → String → Action O N
    unfolding node_class verify_class
    open_node_class world verifier registry board_type = do
      class ← node_class registry board_type
      ret ← verify_class world (verifier class)
      if ret ==ℤ pos 0 then pure class else raise value_error
