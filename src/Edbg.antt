-- ===== src/Edbg.antt =====
-- gateway_code/utils/edbg.py: the EDBG programmer.
use iot_lab_gateway.Prelude.{ℕ, String, Bool, some, [], ◌∷◌, if◌then◌else◌}
use iot_lab_gateway.Prelude.Int.{ℤ, pos, ◌+ℤ◌}
use iot_lab_gateway.Text.{concat, hex}
use iot_lab_gateway.Effects.{
  World, Action, pure, gets, perform, try_except, ◌>>=◌, run, open_read, temp_file,
}
use iot_lab_gateway.OpenOcd.{call_code, attempted, io_error_as_1}

-- `Edbg`
pub record Edbg : Type 0 where
  pub timeout : ℕ

-- `FLASH.format(bin, hex(offset))` in `EDBG`
unfoldable pub edbg_cmd : String → ℤ → String
unfolding concat hex
edbg_cmd bin offset =
    concat ("/usr/bin/edbg  -t atmel_cm0p -b -e -v -p -f " ∷ bin ∷ " -o " ∷ hex offset ∷ [])

-- `objcopy -I elf32-big -O binary {elf} {bin}`
unfoldable pub to_bin_cmd : String → String → String
unfolding concat
to_bin_cmd elf bin = concat ("objcopy -I elf32-big -O binary " ∷ elf ∷ " " ∷ bin ∷ [])

module _ (world : World) where
  unfoldable pub call_cmd : String → Action Edbg ℤ
  call_cmd command = do
    e ← gets (λ e. e)
    outcome ← perform world (run command (some e.timeout))
    call_code outcome

  -- `flash`: an ELF file is first made a binary, which goes to offset 0. A conversion that fails
  -- does not keep the flash from being called.
  unfoldable pub flash : String → Bool → ℤ → Action Edbg ℤ
  unfolding call_cmd edbg_cmd to_bin_cmd
  flash fw_file binary offset =
      try_except
        (do
          opened ← perform world (open_read fw_file)
          path ← attempted opened
          if binary then call_cmd (edbg_cmd path offset) else (do
            made ← perform world (temp_file ".bin")
            bin ← attempted made
            converted ← call_cmd (to_bin_cmd path bin)
            flashed ← call_cmd (edbg_cmd bin (pos 0))
            pure (converted +ℤ flashed)))
        io_error_as_1
