-- ===== src/Commands/Configuration.antt =====
-- `ConfigurationKey` and `CONFIGURATION_COMMANDS` of cc2camera/commands.py.
use cc2_camera_fix.Base.{Bool, true, false, Option, none, some, List, [], ◌∷◌}
use cc2_camera_fix.Base.Tests.{if◌then◌else◌}
use cc2_camera_fix.Base.Bytes.{equal}
use cc2_camera_fix.Base.Text.{Text, codes}
use cc2_camera_fix.Commands.Numbers.{NormalCommand}
use cc2_camera_fix.Commands.Numbers

pub data ConfigurationKey : Type 0 where
  manufacturer_label serial_label product_number vendor_id product_id device_bcd : ConfigurationKey
  model_label cmei_label app_key product_label adb_enabled sensor_name i2c_address :
      ConfigurationKey
  default_boot sensor_fps sensor_width sensor_height hv_flip rate_control_mode bitrate :
      ConfigurationKey
  qp_value : ConfigurationKey

-- A key is a `str`: it is compared and hashed by its text.
unfoldable pub key_text : ConfigurationKey → Text
key_text manufacturer_label = codes "manufact_lab"
key_text serial_label = codes "serial_lab"
key_text product_number = codes "productnumber"
key_text vendor_id = codes "vendor_id"
key_text product_id = codes "product_id"
key_text device_bcd = codes "device_bcd"
key_text model_label = codes "model_lab"
key_text cmei_label = codes "cmei_lab"
key_text app_key = codes "appkey"
key_text product_label = codes "product_lab"
key_text adb_enabled = codes "adb_en"
key_text sensor_name = codes "sensor_name"
key_text i2c_address = codes "i2c_addr"
key_text default_boot = codes "default_boot"
key_text sensor_fps = codes "sensor_fps"
key_text sensor_width = codes "sensor_width"
key_text sensor_height = codes "sensor_height"
key_text hv_flip = codes "hvflip"
key_text rate_control_mode = codes "rcmode"
key_text bitrate = codes "bitrate"
key_text qp_value = codes "qp_value"

abbrev pub keys : List ConfigurationKey
keys =
    manufacturer_label ∷ serial_label ∷ product_number ∷ vendor_id ∷ product_id ∷ device_bcd
    ∷ model_label ∷ cmei_label ∷ app_key ∷ product_label ∷ adb_enabled ∷ sensor_name ∷ i2c_address
    ∷ default_boot ∷ sensor_fps ∷ sensor_width ∷ sensor_height ∷ hv_flip ∷ rate_control_mode
    ∷ bitrate ∷ qp_value ∷ []

unfoldable pub key_with_text : Text → List ConfigurationKey → Option ConfigurationKey
unfolding key_text equal
key_with_text text [] = none
key_with_text text (k ∷ ks) = if equal (key_text k) text then some k else key_with_text text ks

-- `ConfigurationKey(text)`, where `none` stands for the ValueError
unfoldable pub key_of_text : Text → Option ConfigurationKey
unfolding key_with_text
key_of_text text = key_with_text text keys

pub record ConfigCommandPair : Type 0 where
  pub key : ConfigurationKey
  pub get : NormalCommand
  pub set : NormalCommand
  pub present_in_supplied_active_config : Bool

abbrev pair : ConfigurationKey → NormalCommand → NormalCommand → Bool → ConfigCommandPair
pair k g s p = record { key = k; get = g; set = s; present_in_supplied_active_config = p }

abbrev pub configuration_commands : List ConfigCommandPair
configuration_commands =
    pair manufacturer_label Numbers.config_get_manufacturer_label
      Numbers.config_set_manufacturer_label true
    ∷ pair serial_label Numbers.config_get_serial_label Numbers.config_set_serial_label true
    ∷ pair product_number Numbers.config_get_product_number Numbers.config_set_product_number false
    ∷ pair vendor_id Numbers.config_get_vendor_id Numbers.config_set_vendor_id true
    ∷ pair product_id Numbers.config_get_product_id Numbers.config_set_product_id true
    ∷ pair device_bcd Numbers.config_get_device_bcd Numbers.config_set_device_bcd true
    ∷ pair model_label Numbers.config_get_model_label Numbers.config_set_model_label false
    ∷ pair cmei_label Numbers.config_get_cmei_label Numbers.config_set_cmei_label false
    ∷ pair app_key Numbers.config_get_app_key Numbers.config_set_app_key false
    ∷ pair product_label Numbers.config_get_product_label Numbers.config_set_product_label true
    ∷ pair adb_enabled Numbers.config_get_adb_enabled Numbers.config_set_adb_enabled true
    ∷ pair sensor_name Numbers.config_get_sensor_name Numbers.config_set_sensor_name true
    ∷ pair i2c_address Numbers.config_get_i2c_address Numbers.config_set_i2c_address true
    ∷ pair default_boot Numbers.config_get_default_boot Numbers.config_set_default_boot true
    ∷ pair sensor_fps Numbers.config_get_sensor_fps Numbers.config_set_sensor_fps true
    ∷ pair sensor_width Numbers.config_get_sensor_width Numbers.config_set_sensor_width true
    ∷ pair sensor_height Numbers.config_get_sensor_height Numbers.config_set_sensor_height true
    ∷ pair hv_flip Numbers.config_get_hv_flip Numbers.config_set_hv_flip true
    ∷ pair rate_control_mode Numbers.config_get_rate_control_mode
        Numbers.config_set_rate_control_mode true
    ∷ pair bitrate Numbers.config_get_bitrate Numbers.config_set_bitrate true
    ∷ pair qp_value Numbers.config_get_qp_value Numbers.config_set_qp_value true
    ∷ []

-- A dict that is filled from a list keeps the last entry of a key.
unfoldable pub last_pair : ConfigurationKey → List ConfigCommandPair → Option ConfigCommandPair
unfolding key_text equal
last_pair k [] = none
last_pair k (entry ∷ entries) = elim (last_pair k entries) [
  | some later ↦ some later
  | none ↦ if equal (key_text entry.key) (key_text k) then some entry else none
]

-- `CONFIGURATION_BY_KEY[k]`, where `none` stands for the KeyError
unfoldable pub configuration_by_key : ConfigurationKey → Option ConfigCommandPair
unfolding last_pair
configuration_by_key k = last_pair k configuration_commands
