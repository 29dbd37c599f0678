-- ===== src/OpenNode.antt =====
-- gateway_code/nodes.py, `OpenNodeBase`: what the manager uses of an open node class, as a record
-- of its methods. A method or attribute that a class may lack is an option.
pub mod WithOpenOcd
pub mod WithEdbg
pub mod Classes
pub mod Firefly
pub mod Leonardo
pub mod Zigduino
pub mod Pycom
pub mod RtlSdr
pub mod Linux
pub mod LoraGateway
use iot_lab_gateway.Prelude.{ℕ, String, Bool, Option}
use iot_lab_gateway.Prelude.Int.{ℤ}
use iot_lab_gateway.Effects.{Action}

pub record OpenNode (O : Type 0) : Type 0 where
  -- class attributes
  pub type_name : String
  pub tty : String
  pub alim : String
  pub elf_target : Option (String × String)
  -- methods
  pub setup : Option String → Action O ℤ
  pub teardown : Action O ℤ
  pub status : Action O ℤ
  pub flash : Option (Option String → Bool → ℤ → Action O ℤ)
  pub reset : Option (Action O ℤ)
  pub debug_start : Option (Action O ℤ)
  pub debug_stop : Option (Action O ℤ)
