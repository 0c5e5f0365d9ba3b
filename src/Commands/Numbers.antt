-- ===== src/Commands/Numbers.antt =====
-- The command numbers of cc2camera/commands.py: `NormalCommand`, with its lookup by value.
pub mod Lookup
use cc2_camera_fix.Base.{ℕ, Option, none, some, List, [], ◌∷◌}
use cc2_camera_fix.Base.Tests.{◌==◌, if◌then◌else◌}

pub data NormalCommand : Type 0 where
  version_query config_get_manufacturer_label config_set_manufacturer_label : NormalCommand
  config_get_serial_label config_set_serial_label config_get_product_number : NormalCommand
  config_set_product_number config_get_vendor_id config_set_vendor_id config_get_product_id :
      NormalCommand
  config_set_product_id config_get_device_bcd config_set_device_bcd config_get_model_label :
      NormalCommand
  config_set_model_label config_get_cmei_label config_set_cmei_label config_get_app_key :
      NormalCommand
  config_set_app_key config_get_product_label config_set_product_label : NormalCommand
  config_get_adb_enabled config_set_adb_enabled config_get_sensor_name : NormalCommand
  config_set_sensor_name config_get_i2c_address config_set_i2c_address : NormalCommand
  config_get_default_boot config_set_default_boot config_get_sensor_fps : NormalCommand
  config_set_sensor_fps config_get_sensor_width config_set_sensor_width : NormalCommand
  config_get_sensor_height config_set_sensor_height config_get_hv_flip config_set_hv_flip :
      NormalCommand
  config_get_rate_control_mode config_set_rate_control_mode config_get_bitrate : NormalCommand
  config_set_bitrate config_get_qp_value config_set_qp_value upload_initialize : NormalCommand
  upload_target_3110 upload_target_3111 upload_target_3112 upload_target_3113 : NormalCommand
  upload_target_sensor_module upload_target_sensor_configuration upload_target_3116 : NormalCommand
  upload_target_3120 upload_target_3150 upload_target_31f0 upload_append_data upload_commit :
      NormalCommand
  upgrade_and_reboot : NormalCommand

-- `int(command)`
unfoldable pub value : NormalCommand → ℕ
value version_query = 0x0001
value config_get_manufacturer_label = 0x2000
value config_set_manufacturer_label = 0x2001
value config_get_serial_label = 0x2010
value config_set_serial_label = 0x2011
value config_get_product_number = 0x2020
value config_set_product_number = 0x2021
value config_get_vendor_id = 0x2030
value config_set_vendor_id = 0x2031
value config_get_product_id = 0x2040
value config_set_product_id = 0x2041
value config_get_device_bcd = 0x2050
value config_set_device_bcd = 0x2051
value config_get_model_label = 0x2f00
value config_set_model_label = 0x2f01
value config_get_cmei_label = 0x2f10
value config_set_cmei_label = 0x2f11
value config_get_app_key = 0x2f20
value config_set_app_key = 0x2f21
value config_get_product_label = 0x2f30
value config_set_product_label = 0x2f31
value config_get_adb_enabled = 0x2f40
value config_set_adb_enabled = 0x2f41
value config_get_sensor_name = 0x2f50
value config_set_sensor_name = 0x2f51
value config_get_i2c_address = 0x2f60
value config_set_i2c_address = 0x2f61
value config_get_default_boot = 0x2f70
value config_set_default_boot = 0x2f71
value config_get_sensor_fps = 0x2f80
value config_set_sensor_fps = 0x2f81
value config_get_sensor_width = 0x2f90
value config_set_sensor_width = 0x2f91
value config_get_sensor_height = 0x2fa0
value config_set_sensor_height = 0x2fa1
value config_get_hv_flip = 0x2fb0
value config_set_hv_flip = 0x2fb1
value config_get_rate_control_mode = 0x2fc0
value config_set_rate_control_mode = 0x2fc1
value config_get_bitrate = 0x2fd0
value config_set_bitrate = 0x2fd1
value config_get_qp_value = 0x2fe0
value config_set_qp_value = 0x2fe1
value upload_initialize = 0x3000
value upload_target_3110 = 0x3110
value upload_target_3111 = 0x3111
value upload_target_3112 = 0x3112
value upload_target_3113 = 0x3113
value upload_target_sensor_module = 0x3114
value upload_target_sensor_configuration = 0x3115
value upload_target_3116 = 0x3116
value upload_target_3120 = 0x3120
value upload_target_3150 = 0x3150
value upload_target_31f0 = 0x31f0
value upload_append_data = 0x3200
value upload_commit = 0x3300
value upgrade_and_reboot = 0x4000

-- The members of the enum, in order.
abbrev pub commands : List NormalCommand
commands =
    version_query ∷ config_get_manufacturer_label ∷ config_set_manufacturer_label
    ∷ config_get_serial_label ∷ config_set_serial_label ∷ config_get_product_number
    ∷ config_set_product_number ∷ config_get_vendor_id ∷ config_set_vendor_id
    ∷ config_get_product_id ∷ config_set_product_id ∷ config_get_device_bcd ∷ config_set_device_bcd
    ∷ config_get_model_label ∷ config_set_model_label ∷ config_get_cmei_label
    ∷ config_set_cmei_label ∷ config_get_app_key ∷ config_set_app_key ∷ config_get_product_label
    ∷ config_set_product_label ∷ config_get_adb_enabled ∷ config_set_adb_enabled
    ∷ config_get_sensor_name ∷ config_set_sensor_name ∷ config_get_i2c_address
    ∷ config_set_i2c_address ∷ config_get_default_boot ∷ config_set_default_boot
    ∷ config_get_sensor_fps ∷ config_set_sensor_fps ∷ config_get_sensor_width
    ∷ config_set_sensor_width ∷ config_get_sensor_height ∷ config_set_sensor_height
    ∷ config_get_hv_flip ∷ config_set_hv_flip ∷ config_get_rate_control_mode
    ∷ config_set_rate_control_mode ∷ config_get_bitrate ∷ config_set_bitrate ∷ config_get_qp_value
    ∷ config_set_qp_value ∷ upload_initialize ∷ upload_target_3110 ∷ upload_target_3111
    ∷ upload_target_3112 ∷ upload_target_3113 ∷ upload_target_sensor_module
    ∷ upload_target_sensor_configuration ∷ upload_target_3116 ∷ upload_target_3120
    ∷ upload_target_3150 ∷ upload_target_31f0 ∷ upload_append_data ∷ upload_commit
    ∷ upgrade_and_reboot ∷ []

unfoldable pub with_value : ℕ → List NormalCommand → Option NormalCommand
unfolding value
with_value n [] = none
with_value n (c ∷ cs) = if value c == n then some c else with_value n cs

-- `NormalCommand(n)`, where `none` stands for the ValueError
unfoldable pub of_value : ℕ → Option NormalCommand
unfolding with_value
of_value n = with_value n commands
