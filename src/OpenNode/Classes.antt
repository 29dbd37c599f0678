-- ===== src/OpenNode/Classes.antt =====
-- gateway_code/open_nodes: the boards that OpenOCD programs, as the attributes of their classes.
use iot_lab_gateway.Prelude.{String, true, false, some, none, List, [], ◌∷◌}
use iot_lab_gateway.Text.{concat}
use iot_lab_gateway.Nodes.{Verified}
use iot_lab_gateway.OpenNode.WithOpenOcd.{NodeClass}

-- `static_path(static_file)` of gateway_code/config.py, in the folder of the static files.
abbrev pub static_path : String → String → String
static_path static_dir static_file = concat (static_dir ∷ "/" ∷ static_file ∷ [])

-- What `verify` looks at.
abbrev pub verified : NodeClass → Verified
verified class = record {
  elf_target = some ("ELFCLASS32", "EM_ARM");
  fw_idle = some class.fw_idle;
  fw_autotest = some class.fw_autotest;
  autotest_available = some class.autotest_available;
}

module _ (static_dir : String) where
  abbrev static : String → String
  static file = static_path static_dir file

  -- `NodeOpenOCDBase`; the attributes that it lacks are empty.
  abbrev pub openocd_base : NodeClass
  openocd_base = record {
    type_name = "";
    tty = "";
    baudrate = 0;
    fw_idle = "";
    fw_autotest = "";
    rom_start_addr = 0;
    openocd_path = "/opt/openocd-dev/bin/openocd";
    openocd_cfg_file = "";
    openocd_opts = [];
    alim = "5V";
    autotest_available =
        "echo" ∷ "get_time" ∷ "get_uid" ∷ "leds_on" ∷ "leds_off" ∷ "leds_blink" ∷ [];
    jlink_serial = false;
    dirty_serial = false;
    ftdi_type = none;
  }

  abbrev pub jlink_base : NodeClass
  jlink_base = record openocd_base {
    openocd_path = "/opt/openocd-dev/bin/openocd";
    tty = "/dev/iotlab/ttyON_JLINK";
    baudrate = 115200;
    jlink_serial = true;
    dirty_serial = true;
  }

  abbrev pub st_link_base : NodeClass
  st_link_base = record openocd_base {
    tty = "/dev/iotlab/ttyON_STLINK";
    baudrate = 115200;
    dirty_serial = true;
  }

  abbrev pub a8_m3 : NodeClass
  a8_m3 = record openocd_base {
    type_name = "a8_m3";
    tty = "/dev/ttyA8_M3";
    baudrate = 500000;
    rom_start_addr = 134217728;
    openocd_cfg_file = static "iot-lab.cfg";
    openocd_opts = static "iot-lab-a8-m3.cfg" ∷ [];
    fw_idle = static "a8-m3_idle.elf";
    fw_autotest = static "a8-m3_autotest.elf";
    alim = "3.3V";
    autotest_available =
        "echo" ∷ "get_time" ∷ "get_uid" ∷ "get_accelero" ∷ "get_gyro" ∷ "get_magneto" ∷ "test_gpio"
        ∷ "test_i2c" ∷ "radio_pkt" ∷ "radio_ping_pong" ∷ "test_pps_start" ∷ "test_pps_get"
        ∷ "test_pps_stop" ∷ "leds_on" ∷ "leds_off" ∷ "leds_blink" ∷ [];
    ftdi_type = some "2232";
  }

  abbrev pub arduino_zero : NodeClass
  arduino_zero = record openocd_base {
    type_name = "arduino_zero";
    tty = "/dev/iotlab/ttyON_CMSIS_DAP";
    baudrate = 115200;
    openocd_cfg_file = static "iot-lab-arduino-zero.cfg";
    fw_idle = static "arduino-zero_idle.elf";
    fw_autotest = static "arduino-zero_autotest.elf";
  }

  abbrev pub dwm1001 : NodeClass
  dwm1001 = record openocd_base {
    type_name = "dwm1001";
    openocd_cfg_file = static "iot-lab-nrf52xxxdk.cfg";
    fw_idle = static "dwm1001_idle.elf";
    fw_autotest = static "dwm1001_autotest.elf";
    tty = "/dev/iotlab/ttyON_DWM1001";
    baudrate = 115200;
  }

  abbrev pub fox : NodeClass
  fox = record openocd_base {
    type_name = "fox";
    tty = "/dev/iotlab/ttyON_FOX";
    baudrate = 500000;
    rom_start_addr = 134217728;
    openocd_cfg_file = static "iot-lab.cfg";
    openocd_opts = static "iot-lab-fox.cfg" ∷ [];
    fw_idle = static "fox_idle.elf";
    fw_autotest = static "fox_autotest.elf";
    autotest_available =
        "echo" ∷ "get_time" ∷ "get_uid" ∷ "get_accelero" ∷ "get_gyro" ∷ "get_magneto" ∷ "radio_pkt"
        ∷ "radio_ping_pong" ∷ "leds_on" ∷ "leds_off" ∷ "leds_blink" ∷ [];
  }

  abbrev pub frdm_kw41z : NodeClass
  frdm_kw41z = record jlink_base {
    type_name = "frdm_kw41z";
    openocd_cfg_file = static "iot-lab-frdm-kw41z.cfg";
    fw_idle = static "frdm-kw41z_idle.elf";
    fw_autotest = static "frdm-kw41z_autotest.elf";
    dirty_serial = false;
  }

  abbrev pub m3 : NodeClass
  m3 = record openocd_base {
    type_name = "m3";
    tty = "/dev/iotlab/ttyON_M3";
    baudrate = 500000;
    rom_start_addr = 134217728;
    openocd_cfg_file = static "iot-lab.cfg";
    openocd_opts = static "iot-lab-m3.cfg" ∷ [];
    fw_idle = static "m3_idle.elf";
    fw_autotest = static "m3_autotest.elf";
    alim = "3.3V";
    autotest_available =
        "echo" ∷ "get_time" ∷ "get_uid" ∷ "get_pressure" ∷ "get_light" ∷ "test_flash"
        ∷ "get_accelero" ∷ "get_gyro" ∷ "get_magneto" ∷ "test_gpio" ∷ "test_i2c" ∷ "radio_pkt"
        ∷ "radio_ping_pong" ∷ "leds_consumption" ∷ "leds_on" ∷ "leds_off" ∷ "leds_blink" ∷ [];
    ftdi_type = some "2232";
  }

  abbrev pub nrf51dk : NodeClass
  nrf51dk = record openocd_base {
    type_name = "nrf51dk";
    openocd_cfg_file = static "iot-lab-nrf51dk.cfg";
    fw_idle = static "nrf51dk_idle.elf";
    fw_autotest = static "nrf51dk_autotest.elf";
    tty = "/dev/iotlab/ttyON_CMSIS-DAP";
    baudrate = 115200;
  }

  abbrev pub nrf52832mdk : NodeClass
  nrf52832mdk = record openocd_base {
    type_name = "nrf52832mdk";
    openocd_cfg_file = static "iot-lab-nrf528xxmdk.cfg";
    fw_idle = static "nrf52832mdk_idle.elf";
    fw_autotest = static "nrf52832mdk_autotest.elf";
    tty = "/dev/iotlab/ttyON_CMSIS-DAP";
    baudrate = 115200;
  }

  abbrev pub nrf52840dk : NodeClass
  nrf52840dk = record jlink_base {
    type_name = "nrf52840dk";
    openocd_cfg_file = static "iot-lab-nrf52xxxdk.cfg";
    fw_idle = static "nrf52840dk_idle.elf";
    fw_autotest = static "nrf52840dk_autotest.elf";
  }

  abbrev pub nrf52840mdk : NodeClass
  nrf52840mdk = record openocd_base {
    type_name = "nrf52840mdk";
    openocd_cfg_file = static "iot-lab-nrf528xxmdk.cfg";
    fw_idle = static "nrf52840mdk_idle.elf";
    fw_autotest = static "nrf52840mdk_autotest.elf";
    tty = "/dev/iotlab/ttyON_CMSIS-DAP";
    baudrate = 115200;
  }

  abbrev pub nrf52dk : NodeClass
  nrf52dk = record jlink_base {
    type_name = "nrf52dk";
    openocd_cfg_file = static "iot-lab-nrf52xxxdk.cfg";
    fw_idle = static "nrf52dk_idle.elf";
    fw_autotest = static "nrf52dk_autotest.elf";
  }

  abbrev pub nucleo_f070rb : NodeClass
  nucleo_f070rb = record st_link_base {
    type_name = "nucleo_f070rb";
    rom_start_addr = 134217728;
    openocd_cfg_file = static "iot-lab-nucleo-f070rb.cfg";
    fw_idle = static "nucleo-f070rb_idle.elf";
    fw_autotest = static "nucleo-f070rb_autotest.elf";
  }

  abbrev pub nucleo_wb55 : NodeClass
  nucleo_wb55 = record st_link_base {
    type_name = "nucleo_wb55";
    rom_start_addr = 134217728;
    openocd_cfg_file = static "iot-lab-nucleo-wb55.cfg";
    fw_idle = static "nucleo-wb55_idle.elf";
    fw_autotest = static "nucleo-wb55_autotest.elf";
  }

  abbrev pub phynode : NodeClass
  phynode = record openocd_base {
    type_name = "phynode";
    openocd_cfg_file = static "iot-lab-phynode.cfg";
    fw_idle = static "phynode_idle.elf";
    fw_autotest = static "phynode_autotest.elf";
    tty = "/dev/iotlab/ttyON_PHYNODE";
    baudrate = 115200;
  }

  abbrev pub samd21 : NodeClass
  samd21 = record openocd_base {
    type_name = "samd21";
    openocd_cfg_file = static "iot-lab-samd21.cfg";
    fw_idle = static "samd21_idle.elf";
    fw_autotest = static "samd21_autotest.elf";
    tty = "/dev/iotlab/ttyON_CMSIS_DAP";
    baudrate = 115200;
  }

  abbrev pub samr21 : NodeClass
  samr21 = record openocd_base {
    type_name = "samr21";
    openocd_cfg_file = static "iot-lab-samr21.cfg";
    fw_idle = static "samr21_idle.elf";
    fw_autotest = static "samr21_autotest.elf";
    tty = "/dev/iotlab/ttyON_CMSIS_DAP";
    baudrate = 115200;
  }

  abbrev pub samr30 : NodeClass
  samr30 = record openocd_base {
    type_name = "samr30";
    openocd_cfg_file = static "iot-lab-samr30.cfg";
    fw_idle = static "samr30_idle.elf";
    fw_autotest = static "samr30_autotest.elf";
    tty = "/dev/iotlab/ttyON_CMSIS_DAP";
    baudrate = 115200;
  }

  abbrev pub samr34 : NodeClass
  samr34 = record openocd_base {
    type_name = "samr34";
    openocd_cfg_file = static "iot-lab-samr34.cfg";
    openocd_path = "/opt/openocd-dev/bin/openocd";
    fw_idle = static "samr34_idle.elf";
    fw_autotest = static "samr34_autotest.elf";
    tty = "/dev/iotlab/ttyON_CMSIS_DAP";
    baudrate = 115200;
  }

  abbrev pub st_cell02 : NodeClass
  st_cell02 = record st_link_base {
    type_name = "st_cell02";
    rom_start_addr = 134217728;
    openocd_cfg_file = static "iot-lab-st-cell02.cfg";
    fw_idle = static "st-cell02_idle.elf";
    fw_autotest = static "st-cell02_autotest.elf";
  }

  abbrev pub st_iotnode : NodeClass
  st_iotnode = record st_link_base {
    type_name = "st_iotnode";
    rom_start_addr = 134217728;
    openocd_cfg_file = static "iot-lab-st-iotnode.cfg";
    fw_idle = static "st-iotnode_idle.elf";
    fw_autotest = static "st-iotnode_autotest.elf";
  }

  abbrev pub st_lrwan1 : NodeClass
  st_lrwan1 = record st_link_base {
    type_name = "st_lrwan1";
    rom_start_addr = 134217728;
    openocd_cfg_file = static "iot-lab-st-lrwan1.cfg";
    fw_idle = static "st-lrwan1_idle.elf";
    fw_autotest = static "st-lrwan1_autotest.elf";
  }

  -- The classes of this file in the registry.
  abbrev pub openocd_classes : List NodeClass
  openocd_classes =
      a8_m3 ∷ arduino_zero ∷ dwm1001 ∷ fox ∷ frdm_kw41z ∷ m3 ∷ nrf51dk ∷ nrf52832mdk ∷ nrf52840dk
      ∷ nrf52840mdk ∷ nrf52dk ∷ nucleo_f070rb ∷ nucleo_wb55 ∷ phynode ∷ samd21 ∷ samr21 ∷ samr30
      ∷ samr34 ∷ st_cell02 ∷ st_iotnode ∷ st_lrwan1 ∷ []
