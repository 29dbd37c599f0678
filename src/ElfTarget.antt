-- ===== src/ElfTarget.antt =====
-- gateway_code/utils/elftarget.py: whether a firmware file fits a node.
use iot_lab_gateway.Prelude.{
  ℕ, List, [], ◌∷◌, String, Bool, true, false, ◌&&◌, Option, none, some, same, if◌then◌else◌,
}
use iot_lab_gateway.Effects.{
  World, Action, pure, raise, perform, try_except, ◌>>=◌, value_error, attribute_error, io_error,
  os_error, elf_error, ElfSection, elf_sections, elf_header, done, io_failed, os_failed,
}

-- `elf_target`: class and machine of an executable ELF file.
unfoldable pub elf_target : {O : Type 0} → World → String → Action O (String × String)
elf_target world path = do
  header ← perform world (elf_header path)
  elim header [
    | io_failed n ↦ raise (io_error n)
    | os_failed n ↦ raise (os_error n)
    | done none ↦ raise value_error
    | done (some h) ↦ if same h.kind "ET_EXEC" then pure (h.class, h.machine) else raise value_error
  ]

abbrev pub same_target : String × String → String × String → Bool
same_target (c, m) (c', m') = same c c' && same m m'

-- `is_compatible_with_node`, for a class with or without an `ELF_TARGET`.
unfoldable pub is_compatible_with_node :
    {O : Type 0} → World → Option String → Option (String × String) → Action O Bool
unfolding elf_target
is_compatible_with_node world none target = pure true
is_compatible_with_node world (some path) none = raise attribute_error
is_compatible_with_node world (some path) (some target) =
    try_except (do found ← elf_target world path; pure (same_target found target))
      (λ e. elim e [ value_error ↦ pure false | other ↦ raise other ])

-- The address of the first section that holds code.
unfoldable pub first_executable : List ElfSection → Option ℕ
first_executable [] = none
first_executable (section ∷ rest) =
    let further = first_executable rest in
    if section.executable then some section.sh_addr else further

-- `get_elf_load_addr`: an ELFError is not caught here.
unfoldable pub get_elf_load_addr : {O : Type 0} → World → String → Action O (Option ℕ)
unfolding first_executable
get_elf_load_addr world path = do
  sections ← perform world (elf_sections path)
  elim sections [
    | io_failed n ↦ raise (io_error n)
    | os_failed n ↦ raise (os_error n)
    | done none ↦ raise elf_error
    | done (some found) ↦ pure (first_executable found)
  ]
