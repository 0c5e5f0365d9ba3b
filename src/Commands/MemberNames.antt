-- ===== src/Commands/MemberNames.antt =====
-- `NormalCommand.name.lower()` of cc2camera/commands.py.
use cc2_camera_fix.Base.Text.{Text, codes}
use cc2_camera_fix.Commands.Numbers.{NormalCommand}
use cc2_camera_fix.Commands.Numbers

unfoldable pub lower_name : NormalCommand → Text
lower_name Numbers.version_query = codes "version_query"
lower_name Numbers.config_get_manufacturer_label = codes "config_get_manufacturer_label"
lower_name Numbers.config_set_manufacturer_label = codes "config_set_manufacturer_label"
lower_name Numbers.config_get_serial_label = codes "config_get_serial_label"
lower_name Numbers.config_set_serial_label = codes "config_set_serial_label"
lower_name Numbers.config_get_product_number = codes "config_get_product_number"
lower_name Numbers.config_set_product_number = codes "config_set_product_number"
lower_name Numbers.config_get_vendor_id = codes "config_get_vendor_id"
lower_name Numbers.config_set_vendor_id = codes "config_set_vendor_id"
lower_name Numbers.config_get_product_id = codes "config_get_product_id"
lower_name Numbers.config_set_product_id = codes "config_set_product_id"
lower_name Numbers.config_get_device_bcd = codes "config_get_device_bcd"
lower_name Numbers.config_set_device_bcd = codes "config_set_device_bcd"
lower_name Numbers.config_get_model_label = codes "config_get_model_label"
lower_name Numbers.config_set_model_label = codes "config_set_model_label"
lower_name Numbers.config_get_cmei_label = codes "config_get_cmei_label"
lower_name Numbers.config_set_cmei_label = codes "config_set_cmei_label"
lower_name Numbers.config_get_app_key = codes "config_get_app_key"
lower_name Numbers.config_set_app_key = codes "config_set_app_key"
lower_name Numbers.config_get_product_label = codes "config_get_product_label"
lower_name Numbers.config_set_product_label = codes "config_set_product_label"
lower_name Numbers.config_get_adb_enabled = codes "config_get_adb_enabled"
lower_name Numbers.config_set_adb_enabled = codes "config_set_adb_enabled"
lower_name Numbers.config_get_sensor_name = codes "config_get_sensor_name"
lower_name Numbers.config_set_sensor_name = codes "config_set_sensor_name"
lower_name Numbers.config_get_i2c_address = codes "config_get_i2c_address"
lower_name Numbers.config_set_i2c_address = codes "config_set_i2c_address"
lower_name Numbers.config_get_default_boot = codes "config_get_default_boot"
lower_name Numbers.config_set_default_boot = codes "config_set_default_boot"
lower_name Numbers.config_get_sensor_fps = codes "config_get_sensor_fps"
lower_name Numbers.config_set_sensor_fps = codes "config_set_sensor_fps"
lower_name Numbers.config_get_sensor_width = codes "config_get_sensor_width"
lower_name Numbers.config_set_sensor_width = codes "config_set_sensor_width"
lower_name Numbers.config_get_sensor_height = codes "config_get_sensor_height"
lower_name Numbers.config_set_sensor_height = codes "config_set_sensor_height"
lower_name Numbers.config_get_hv_flip = codes "config_get_hv_flip"
lower_name Numbers.config_set_hv_flip = codes "config_set_hv_flip"
lower_name Numbers.config_get_rate_control_mode = codes "config_get_rate_control_mode"
lower_name Numbers.config_set_rate_control_mode = codes "config_set_rate_control_mode"
lower_name Numbers.config_get_bitrate = codes "config_get_bitrate"
lower_name Numbers.config_set_bitrate = codes "config_set_bitrate"
lower_name Numbers.config_get_qp_value = codes "config_get_qp_value"
lower_name Numbers.config_set_qp_value = codes "config_set_qp_value"
lower_name Numbers.upload_initialize = codes "upload_initialize"
lower_name Numbers.upload_target_3110 = codes "upload_target_3110"
lower_name Numbers.upload_target_3111 = codes "upload_target_3111"
lower_name Numbers.upload_target_3112 = codes "upload_target_3112"
lower_name Numbers.upload_target_3113 = codes "upload_target_3113"
lower_name Numbers.upload_target_sensor_module = codes "upload_target_sensor_module"
lower_name Numbers.upload_target_sensor_configuration = codes "upload_target_sensor_configuration"
lower_name Numbers.upload_target_3116 = codes "upload_target_3116"
lower_name Numbers.upload_target_3120 = codes "upload_target_3120"
lower_name Numbers.upload_target_3150 = codes "upload_target_3150"
lower_name Numbers.upload_target_31f0 = codes "upload_target_31f0"
lower_name Numbers.upload_append_data = codes "upload_append_data"
lower_name Numbers.upload_commit = codes "upload_commit"
lower_name Numbers.upgrade_and_reboot = codes "upgrade_and_reboot"
