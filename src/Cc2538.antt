-- ===== src/Cc2538.antt =====
-- gateway_code/utils/cc2538.py: reset and flash through the CC2538 serial bootloader.
use iot_lab_gateway.Prelude.{ℕ, zero, suc, ◌-◌, String, Option, none, some, [], ◌∷◌}
use iot_lab_gateway.Prelude.Int.{ℤ, ◌+ℤ◌}
use iot_lab_gateway.Text.{concat, str, render, text_length}
use iot_lab_gateway.Effects.{
  World, Action, pure, raise, gets, perform, try_except, ◌>>=◌, run, open_read, temp_file,
  value_error,
}
use iot_lab_gateway.ElfTarget.{get_elf_load_addr}
use iot_lab_gateway.OpenOcd.{call_code, attempted, io_error_as_1}

-- `CC2538`
pub record Cc2538 : Type 0 where
  pub port : String
  pub baud : ℕ
  pub timeout : ℕ

-- `n` zeros in front of a text.
unfoldable pub zeros : ℕ → String → String
zeros zero s = s
zeros (suc n) s = String.◌∷◌ "0" (zeros n s)

-- `'{:08x}'.format(addr)`
unfoldable pub hex_8 : ℕ → String
unfolding zeros render text_length
hex_8 addr = let digits = render (suc addr) 16 addr "" in zeros (8 - text_length digits) digits

-- `CC2538BSL.format(port=…, cmd=…)`
unfoldable pub bsl_cmd : Cc2538 → String → String
unfolding concat
bsl_cmd c cmd = concat ("/usr/bin/cc2538-bsl.py -p " ∷ c.port ∷ " " ∷ cmd ∷ [])

-- `FLASH.format(baudrate=…, hex=…, addr=…)`
unfoldable pub flash_options : Cc2538 → String → ℕ → String
unfolding concat str hex_8
flash_options c hex_path addr =
    concat ("-b " ∷ str c.baud ∷ " -e -w -a 0x" ∷ hex_8 addr ∷ " -v " ∷ hex_path ∷ [])

unfoldable pub to_hex_cmd : String → String → String
unfolding concat
to_hex_cmd elf hex_path = concat ("objcopy -I elf32-big -O ihex " ∷ elf ∷ " " ∷ hex_path ∷ [])

-- An address that is None cannot be formatted as a number: ValueError, in Python 2.7.
abbrev pub formatted_address : {O : Type 0} → Option ℕ → Action O ℕ
formatted_address none = raise value_error
formatted_address (some addr) = pure addr

module _ (world : World) where
  unfoldable pub call_cmd : String → Action Cc2538 ℤ
  call_cmd command = do
    c ← gets (λ c. c)
    outcome ← perform world (run command (some c.timeout))
    call_code outcome

  unfoldable pub reset : Action Cc2538 ℤ
  unfolding call_cmd
  reset = do c ← gets (λ c. c); call_cmd (bsl_cmd c "")

  -- A conversion that fails does not keep the flash from being called.
  unfoldable pub flash : String → Action Cc2538 ℤ
  unfolding call_cmd
  flash elf_file =
      try_except
        (do
          found ← perform world (open_read elf_file)
          elf_path ← attempted found
          made ← perform world (temp_file ".hex")
          hex_path ← attempted made
          converted ← call_cmd (to_hex_cmd elf_path hex_path)
          address ← get_elf_load_addr world elf_path
          addr ← formatted_address address
          c ← gets (λ c. c)
          flashed ← call_cmd (bsl_cmd c (flash_options c hex_path addr))
          pure (converted +ℤ flashed))
        io_error_as_1
