-- ===== src/Examples/Boards.antt =====
-- The registry with the boards that OpenOCD programs, and a listing of FTDI chips.
use iot_lab_gateway.Prelude.{String, List, ◌≡◌, refl, [], ◌∷◌, none, some, true}
use iot_lab_gateway.Prelude.Int.{pos}
use iot_lab_gateway.Effects.{World, State, returned, elf_header, done}
use iot_lab_gateway.Examples.{calm}
use iot_lab_gateway.OpenNode.WithOpenOcd.{NodeClass}
use iot_lab_gateway.OpenNode.Classes
use iot_lab_gateway.OpenNode.Classes.{openocd_classes, verified}
use iot_lab_gateway.Nodes.{import_all_nodes, node_class, open_node_class, get, Verifier, inherited}
use iot_lab_gateway.Nodes.Verifying.{IsChecked, open_node_class-IsChecked}
use iot_lab_gateway.Nodes.Registry.{last_of, class_or_error, node_class-last_of}
use iot_lab_gateway.FtdiCheck.{
  ftdi_lookup_description, ftdi_parse_device_number, split_lines, check_lines,
}
use iot_lab_gateway.FtdiCheck.Lookup.{
  Device, listing, some_described, ftdi_lookup_description-listing,
}

abbrev type_of : NodeClass → String
type_of c = c.type_name

abbrev empty : State (Unit {0})
empty = record { self = tt; trace = [] }

node_class-last_of_example :
    node_class type_of (import_all_nodes type_of (openocd_classes "/static") []) "samr21" empty
    ≡ (class_or_error type_of (last_of type_of "samr21" (openocd_classes "/static")), empty)
node_class-last_of_example = node_class-last_of type_of (openocd_classes "/static") "samr21" empty

last_of-samr21 :
    last_of type_of "samr21" (openocd_classes "/static") ≡ some (Classes.samr21 "/static")
last_of-samr21 = refl

abbrev m3_chip : Device
m3_chip = record {
  id = "Device 0:";
  manufacturer = "\tManufacturer: IoT-LAB";
  description = "\tDescription: M3 ";
  serial = "\tSerial: ";
}

abbrev control_chip : Device
control_chip = record m3_chip { description = "\tDescription: ControlNode" }

some_described-run : some_described "ControlNode" (m3_chip ∷ control_chip ∷ []) ≡ true
unfolding iot_lab_gateway.FtdiCheck.ftdi_parse_device_description iot_lab_gateway.Text.drop_prefix
    iot_lab_gateway.Text.strip
some_described-run = refl

ftdi_lookup_description-listing_example :
    ftdi_lookup_description
      (listing (some "All done, success!") (m3_chip ∷ control_chip ∷ []))
      "ControlNode"
      empty
    ≡ (returned (some_described "ControlNode" (m3_chip ∷ control_chip ∷ [])), empty)
ftdi_lookup_description-listing_example =
    ftdi_lookup_description-listing "ControlNode" (some "All done, success!") m3_chip
      (control_chip ∷ []) empty

ftdi_parse_device_number-run : ftdi_parse_device_number "Found 12 device(s) \r\n" ≡ 12
unfolding ftdi_parse_device_number iot_lab_gateway.Text.drop_prefix iot_lab_gateway.Text.strip
    iot_lab_gateway.Text.read_number
ftdi_parse_device_number-run = refl

check_lines-run :
    check_lines none (split_lines "a\r\nb\nFound 1 device(s) \nDevice 0:\n") empty
    ≡ (returned (pos 0), empty)
unfolding check_lines split_lines iot_lab_gateway.Text.drop_prefix iot_lab_gateway.Text.strip
    iot_lab_gateway.Text.read_number
check_lines-run = refl

-- Every firmware is one for these boards.
abbrev fitting : World
fitting calls (elf_header path) =
    done (some (record { kind = "ET_EXEC"; class = "ELFCLASS32"; machine = "EM_ARM" }))
fitting calls c = calm calls c

abbrev verifier : NodeClass → Verifier
verifier c = inherited (verified c)

abbrev registry : List (String × NodeClass)
registry = import_all_nodes type_of (openocd_classes "/static") []

open_node_class-run :
    (open_node_class type_of fitting verifier registry "samr21" empty).0
    ≡ returned (Classes.samr21 "/static")
unfolding open_node_class import_all_nodes iot_lab_gateway.Nodes.node_class
    iot_lab_gateway.Nodes.verify_class iot_lab_gateway.ElfTarget.is_compatible_with_node
    iot_lab_gateway.Effects.total iot_lab_gateway.Prelude.Int.◌+ℤ◌ iot_lab_gateway.Text.concat
open_node_class-run = refl

open_node_class-IsChecked_example :
    (get type_of "samr21" registry ≡ some (Classes.samr21 "/static"))
    × IsChecked (verifier (Classes.samr21 "/static"))
open_node_class-IsChecked_example =
    open_node_class-IsChecked type_of fitting verifier registry "samr21" empty
      (Classes.samr21 "/static") open_node_class-run
