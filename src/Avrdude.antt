-- ===== src/Avrdude.antt =====
-- gateway_code/utils/avrdude.py: flashing through avrdude, and the bootloader of a Leonardo.
use iot_lab_gateway.Prelude.{ℕ, String, some, [], ◌∷◌}
use iot_lab_gateway.Prelude.Int.{ℤ, pos}
use iot_lab_gateway.Text.{concat, str}
use iot_lab_gateway.Effects.{
  World, Action, pure, gets, perform, try_except, ◌>>=◌, ◌>>◌, run, open_read, serial_connect,
  serial_close, port_opened, serial_failed, os_refused,
}
use iot_lab_gateway.Common.{wait_tty}
use iot_lab_gateway.OpenOcd.{call_code, attempted, io_error_as_1}

-- `AvrDude`, with the four keys of its configuration.
pub record AvrDude : Type 0 where
  pub tty : String
  pub baudrate : ℕ
  pub model : String
  pub programmer : String
  pub timeout : ℕ

-- `AVRDUDE.format(cmd=FLASH.format(hex_path), **conf)`
unfoldable pub avrdude_cmd : AvrDude → String → String
unfolding concat str
avrdude_cmd a hex_path = concat (
    "avrdude -p "
    ∷ a.model
    ∷ " -P "
    ∷ a.tty
    ∷ " -c "
    ∷ a.programmer
    ∷ " -b "
    ∷ str a.baudrate
    ∷ "  -D -U "
    ∷ hex_path
    ∷ [])

module _ (world : World) where
  unfoldable pub flash : String → Action AvrDude ℤ
  flash hex_file =
      try_except
        (do
          found ← perform world (open_read hex_file)
          hex_path ← attempted found
          a ← gets (λ a. a)
          outcome ← perform world (run (avrdude_cmd a hex_path) (some a.timeout))
          call_code outcome)
        io_error_as_1

  -- `trigger_bootloader(tty, tty_prog, timeout)`: the port is opened and closed at 1200 baud.
  unfoldable pub trigger_bootloader : {O : Type 0} → String → String → ℕ → Action O ℤ
  trigger_bootloader tty tty_prog timeout = do
    opening ← perform world (serial_connect tty 1200)
    elim opening [
      | port_opened ↦ perform world (serial_close tty) >> wait_tty world tty_prog timeout
      | serial_failed ↦ pure (pos 1)
      | os_refused n ↦ pure (pos 1)
    ]
