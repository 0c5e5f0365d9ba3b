-- ===== src/Commands/Catalog.antt =====
-- The catalog of the normal commands in cc2camera/commands.py, and the map of the dispatcher.
pub mod Lookup
pub mod Trigger
use cc2_camera_fix.Base.{
  ℕ, ◌+◌, ◌/◌, ◌%◌, Bool, true, false, ◌&&◌, Option, none, some, List, [], ◌∷◌, ◌++◌, bit_and,
}
use cc2_camera_fix.Base.Tests.{leb, ltb, ◌==◌, if◌then◌else◌}
use cc2_camera_fix.Base.Int.{ℤ, pos, negsuc, between}
use cc2_camera_fix.Base.Text.{Text, codes}
use cc2_camera_fix.Commands.Numbers.{NormalCommand, value}
use cc2_camera_fix.Commands.Numbers
use cc2_camera_fix.Commands.MemberNames.{lower_name}
use cc2_camera_fix.Commands.Configuration.{ConfigCommandPair, configuration_commands, key_text}
use cc2_camera_fix.Commands.Uploads.{UploadCommandDescriptor, upload_commands}
use cc2_camera_fix.Protocol.Update.{hex_digit}

pub data NormalCommandFamily : Type 0 where
  version configuration file_upload upgrade_trigger : NormalCommandFamily

pub record NormalCommandDescriptor : Type 0 where
  pub command : ℕ
  pub name : Text
  pub family : NormalCommandFamily
  pub request : Text
  pub success_response : Text
  pub side_effect : Text
  pub source_anchor : Text

pub record NormalDispatchBehavior : Type 0 where
  pub first : ℕ
  pub last : ℕ
  pub behavior : Text
  pub response_behavior : Text

abbrev range : ℕ → ℕ → Text → Text → NormalDispatchBehavior
range a b c d = record { first = a; last = b; behavior = c; response_behavior = d }

abbrev pub normal_dispatch_map : List NormalDispatchBehavior
normal_dispatch_map =
    range 0x0000 0x0FFF (codes "only exact 0x0001 is implemented")
      (codes "other values: no response")
    ∷ range 0x1000 0x1FFF (codes "recognized no-op group") (codes "no response")
    ∷ range 0x2000 0x2FFF (codes "listed configuration commands only")
        (codes "unknown values: no response")
    ∷ range 0x3000 0x3FFF (codes "listed upload commands only")
        (codes "unknown values: no response")
    ∷ range 0x4000 0x4FFF (codes "write upgrade words and reboot") (codes "status 0/1, then reboot")
    ∷ range 0x5000 0xFFFF (codes "unknown command group") (codes "status 5")
    ∷ []

abbrev pub version_entry : NormalCommandDescriptor
unfolding value
version_entry = record {
  command = value Numbers.version_query;
  name = codes "version_query";
  family = version;
  request = codes "empty payload (extra bytes are ignored by firmware)";
  success_response = codes "type 1, status 0, first line of /tmp/version.txt";
  side_effect = codes "none";
  source_anchor = codes "hid_update 0x004015e4";
}

get_entry : ConfigCommandPair → NormalCommandDescriptor
unfolding value key_text
get_entry pair = record {
  command = value pair.get;
  name = codes "config_get_" ++ key_text pair.key;
  family = configuration;
  request = codes "empty payload (payload is ignored)";
  success_response = codes "type 1, status 0, raw value bytes";
  side_effect = codes "none";
  source_anchor = codes "hid_update GET 0x00401cd0 / dispatcher 0x004024c0";
}

set_entry : ConfigCommandPair → NormalCommandDescriptor
unfolding value key_text
set_entry pair = record {
  command = value pair.set;
  name = codes "config_set_" ++ key_text pair.key;
  family = configuration;
  request = codes "replacement value bytes; frame type 1 or 2";
  success_response = codes "type 0, status 0";
  side_effect = codes "rewrites " ++ (key_text pair.key ++ codes " in persistent uvc.config");
  source_anchor = codes "hid_update SET 0x00402038 / dispatcher 0x004024c0";
}

configuration_entries : List ConfigCommandPair → List NormalCommandDescriptor
unfolding get_entry set_entry
configuration_entries [] = []
configuration_entries (pair ∷ pairs) = get_entry pair ∷ set_entry pair ∷ configuration_entries pairs

upload_entry : UploadCommandDescriptor → NormalCommandDescriptor
unfolding value lower_name
upload_entry upload = record {
  command = value upload.command;
  name = lower_name upload.command;
  family = file_upload;
  request = upload.operation;
  success_response = codes "type 0, status 0 (wrong-state calls can falsely succeed)";
  side_effect =
      if upload.destructive
      then codes "destructive file replacement"
      else codes "changes uploader state or buffers data";
  source_anchor = codes "hid_update dispatcher 0x00402e3c";
}

upload_entries : List UploadCommandDescriptor → List NormalCommandDescriptor
unfolding upload_entry
upload_entries [] = []
upload_entries (upload ∷ uploads) = upload_entry upload ∷ upload_entries uploads

abbrev upgrade_entry : NormalCommandDescriptor
unfolding value
upgrade_entry = record {
  command = value Numbers.upgrade_and_reboot;
  name = codes "upgrade_and_reboot";
  family = upgrade_trigger;
  request = codes "exactly 8 upgrade-word bytes; canonical command 0x4000";
  success_response = codes "type 0, status 0 on write success; reboot follows even on failure";
  side_effect = codes "writes flash 0x7f8000 and reboots into U-Boot updater";
  source_anchor = codes "hid_update 0x00401364; group branch 0x0040123c";
}

unfoldable pub build_normal_catalog : List NormalCommandDescriptor
unfolding configuration_entries upload_entries value
build_normal_catalog =
    (version_entry ∷ configuration_entries configuration_commands)
    ++ (upload_entries upload_commands ++ upgrade_entry ∷ [])

-- A dict that is filled from a list keeps the last entry of a command.
unfoldable pub last_entry : ℕ → List NormalCommandDescriptor → Option NormalCommandDescriptor
last_entry n [] = none
last_entry n (d ∷ ds) = elim (last_entry n ds) [
  | some later ↦ some later
  | none ↦ if d.command == n then some d else none
]

-- `NORMAL_COMMAND_BY_VALUE.get(n)`
unfoldable pub command_by_value : ℤ → Option NormalCommandDescriptor
unfolding last_entry build_normal_catalog
command_by_value (pos n) = last_entry n build_normal_catalog
command_by_value (negsuc n) = none

-- `command & 0xF000` of a number that is not negative
unfoldable pub is_upgrade_trigger_command : ℤ → Bool
is_upgrade_trigger_command (pos n) = leb n 0xFFFF && bit_and n 0xF000 == 0x4000
is_upgrade_trigger_command (negsuc n) = false

-- `f"{n:04x}"`, for a number below 2 ^ 16
hex4 : ℕ → Text
hex4 n =
    hex_digit (n / 4096 % 16)
    ∷ hex_digit (n / 256 % 16)
    ∷ hex_digit (n / 16 % 16)
    ∷ hex_digit (n % 16)
    ∷ []

trigger_entry : ℕ → NormalCommandDescriptor → NormalCommandDescriptor
unfolding hex4
trigger_entry n canonical = record {
  command = n;
  name = codes "upgrade_and_reboot_0x" ++ hex4 n;
  family = canonical.family;
  request = canonical.request;
  success_response = canonical.success_response;
  side_effect = canonical.side_effect;
  source_anchor = canonical.source_anchor;
}

describe_trigger : ℤ → Option NormalCommandDescriptor
unfolding trigger_entry
describe_trigger (negsuc n) = none
describe_trigger (pos n) =
    if is_upgrade_trigger_command (pos n)
    then elim (command_by_value (pos (value Numbers.upgrade_and_reboot))) [
      | some canonical ↦ some (trigger_entry n canonical)
      | none ↦ none
    ]
    else none

unfoldable pub describe_normal_command : ℤ → Option NormalCommandDescriptor
unfolding describe_trigger
describe_normal_command command = elim (command_by_value command) [
  | some exact ↦ some exact
  | none ↦ describe_trigger command
]
