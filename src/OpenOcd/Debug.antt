-- ===== src/OpenOcd/Debug.antt =====
-- While a debugger runs, the programmer touches no hardware.
use iot_lab_gateway.Prelude.{◌≡◌, String, Bool, true, false, some, ◌∷◌, arith}
use iot_lab_gateway.Prelude.Int.{ℤ, pos}
use iot_lab_gateway.Effects.{World, State, done, returned, open_read, run}
use iot_lab_gateway.OpenOcd.{
  OpenOcd, reset, flash, debug_stop, debug_start, openocd_args, reset_cmd,
}

module _ (world : World) (s : State OpenOcd) where
  reset-debug : s.self.debug ≡ true → reset world s ≡ (returned (pos 1), s)
  unfolding reset
  reset-debug h = ground arith

  flash-debug :
      (fw : String) (binary : Bool) (offset : ℤ) (path : String)
      → s.self.debug ≡ true
      → world s.trace (open_read fw) ≡ done path
      → flash world fw binary offset s
        ≡ (returned (pos 1), record s { trace = open_read fw ∷ s.trace })
  unfolding flash
  flash-debug fw true offset path h e = ground (arith, e)
  flash-debug fw false offset path h e = ground (arith, e)

  reset-idle :
      s.self.debug ≡ false
      → (reset world s).1.trace
        ≡ run (openocd_args s.self reset_cmd) (some s.self.timeout) ∷ s.trace
  unfolding reset
  reset-idle h = ground arith

  debug_start-debug :
      (code : ℤ)
      → (debug_start world s).0 ≡ returned code
      → (debug_start world s).1.self.debug ≡ true
  unfolding debug_start
  debug_start-debug code h = ground arith

  -- However `terminate` ends, no debugger is held after `debug_stop`.
  pub debug-debug_stop : (debug_stop world s).1.self.debug ≡ false
  unfolding debug_stop
  debug-debug_stop = ground arith

module _ (world : World) (s : State OpenOcd) where
  abbrev pub debugging : State OpenOcd
  debugging = (debug_start world s).1

  abbrev pub stopped : State OpenOcd
  stopped = (debug_stop world debugging).1

  -- Behind a debug_start that returns, a reset returns 1 and makes no call, and a flash of a file that
  -- can be opened returns 1, leaves the object as it is and makes no further call; behind the
  -- debug_stop that follows, however it ends, a reset runs OpenOCD again.
  pub debug_cycle :
      (code : ℤ) (fw : String) (binary : Bool) (offset : ℤ) (path : String)
      → (debug_start world s).0 ≡ returned code
      → world debugging.trace (open_read fw) ≡ done path
      → (reset world debugging ≡ (returned (pos 1), debugging))
        × (flash world fw binary offset debugging
            ≡ (returned (pos 1), record debugging { trace = open_read fw ∷ debugging.trace }))
        × ((reset world stopped).1.trace
            ≡ run (openocd_args stopped.self reset_cmd) (some stopped.self.timeout) ∷ stopped.trace)
  debug_cycle code fw binary offset path h e =
      let held = debug_start-debug world s code h in
      (
        reset-debug world debugging held,
        flash-debug world debugging fw binary offset path held e,
        reset-idle world stopped (debug-debug_stop world debugging),
      )
