-- ===== src/Commands/Requests.antt =====
-- The builders of Linux-mode requests in cc2camera/commands.py.
pub mod Targets
use cc2_camera_fix.Base.{
  ℕ, ◌≤◌, Bool, true, false, not, ◌&&◌, ◌||◌, Option, none, some, List, [], ◌∷◌,
}
use cc2_camera_fix.Base.Tests.{leb, ltb, ◌==◌, if◌then◌else◌}
use cc2_camera_fix.Base.Lists.{length}
use cc2_camera_fix.Base.Int.{ℤ, pos, negsuc, between}
use cc2_camera_fix.Base.Result
use cc2_camera_fix.Base.Result.{Result, ok, err, protocol_error, key_error, guard, ◌>>=◌, ◌>>◌}
use cc2_camera_fix.Base.Bytes.{Bytes}
use cc2_camera_fix.Base.Text.{Text, codes, utf8, ascii}
use cc2_camera_fix.Commands.Numbers.{NormalCommand, value, of_value}
use cc2_camera_fix.Commands.Numbers
use cc2_camera_fix.Commands.Configuration.{
  ConfigurationKey, ConfigCommandPair, key_of_text, configuration_by_key,
}
use cc2_camera_fix.Commands.Uploads.{
  member, literal_upload_target_commands, derived_upload_target_commands,
}
use cc2_camera_fix.Commands.Catalog.{is_upgrade_trigger_command}
use cc2_camera_fix.Protocol.Normal.{build_normal_report, upgrade_flag_payload}

-- An argument of a dynamic type: a `str`, a bytes-like value, or something else.
pub data Value : Type 0 where
  text : Text → Value
  bytes_like : Bytes → Value
  other : Value

-- `bytes(v)`, where `none` stands for the TypeError
abbrev pub to_bytes : Value → Option Bytes
to_bytes (bytes_like b) = some b
to_bytes _ = none

pub data KeyArgument : Type 0 where
  key : ConfigurationKey → KeyArgument
  key_text : Text → KeyArgument

unfoldable pub raw_payload : Value → Result Bytes
raw_payload (text t) = utf8 t
raw_payload (bytes_like b) = ok b
raw_payload other = err (protocol_error Result.not_a_payload)

found {ℓ} : {A : Type ℓ} → Option A → Result.Exn → Result A
found none e = err e
found (some a) e = ok a

normalized : KeyArgument → Result ConfigurationKey
unfolding found
normalized (key k) = ok k
normalized (key_text t) = found (key_of_text t) (protocol_error Result.unknown_configuration_key)

unfoldable pub configuration_pair : KeyArgument → Result ConfigCommandPair
unfolding normalized found
configuration_pair argument = do k ← normalized argument; found (configuration_by_key k) key_error

-- `build_normal_report(command, payload)` with the defaults of the other arguments
unfoldable pub plain_report : NormalCommand → Bytes → Result Bytes
plain_report command payload = build_normal_report (pos (value command)) payload (pos 1) (pos 0)

unfoldable pub build_version_request : Result Bytes
unfolding plain_report
build_version_request = plain_report Numbers.version_query []

unfoldable pub build_config_get_request : KeyArgument → Result Bytes
unfolding plain_report
build_config_get_request argument = do pair ← configuration_pair argument; plain_report pair.get []

unfoldable pub build_config_set_request : KeyArgument → Value → ℤ → Result Bytes
build_config_set_request argument v frame_type = do
  pair ← configuration_pair argument
  payload ← raw_payload v
  build_normal_report (pos (value pair.set)) payload frame_type (pos 0)

-- One byte of the pattern [A-Za-z0-9_./-]
unfoldable pub is_safe_path_byte : ℕ → Bool
is_safe_path_byte c =
    (leb b'A' c && leb c b'Z')
    || ((leb b'a' c && leb c b'z')
        || ((leb b'0' c && leb c b'9') || (c == b'_' || (c == b'.' || (c == b'/' || c == b'-')))))

-- The rest of a full match, behind the first byte.
unfoldable pub all_safe : Bytes → Bool
unfolding is_safe_path_byte
all_safe [] = true
all_safe (c ∷ cs) = is_safe_path_byte c && all_safe cs

-- `_SAFE_UPLOAD_PATH.fullmatch(path) is not None`
unfoldable pub matches_safe_path : Bytes → Bool
unfolding all_safe
matches_safe_path [] = false
matches_safe_path (c ∷ cs) = all_safe (c ∷ cs)

abbrev pub adb_upload_command_target : Bytes
adb_upload_command_target = codes "/tmp/.cc2flash-adbd-bootstrap;/bin/adbd&"

-- The two assertions on the constant hold, so that they never fail.
unfoldable pub build_adb_upload_command_target_request : Result Bytes
unfolding plain_report
build_adb_upload_command_target_request =
    plain_report Numbers.upload_target_3110 adb_upload_command_target

unfoldable pub build_upload_initialize_request : Result Bytes
unfolding plain_report
build_upload_initialize_request = plain_report Numbers.upload_initialize []

unfoldable pub selected_command : ℤ → Result NormalCommand
unfolding found
selected_command (pos n) = found (of_value n) (protocol_error Result.unknown_upload_target)
selected_command (negsuc n) = err (protocol_error Result.unknown_upload_target)

-- The two handlers turn a failed encoding and a failed `bytes` into one error.
unfoldable pub encoded_path : Value → Result Bytes
unfolding ascii
encoded_path (text t) = elim (ascii t) [
  | ok b ↦ ok b
  | err e ↦ err (protocol_error Result.bad_path_type)
]
encoded_path (bytes_like b) = ok b
encoded_path other = err (protocol_error Result.bad_path_type)

unfoldable pub literal_path : Option Value → Result Bytes
literal_path none = err (protocol_error Result.literal_without_path)
literal_path (some path) = do
  encoded ← encoded_path path
  guard (not (length encoded == 0) && (leb (length encoded) 127 && matches_safe_path encoded))
      Result.unsafe_path
  ok encoded

abbrev pub is_absent {ℓ} : {A : Type ℓ} → Option A → Bool
is_absent none = true
is_absent (some _) = false

unfoldable pub build_upload_target_request : ℤ → Option Value → Result Bytes
build_upload_target_request command path = do
  selected ← selected_command command
  if member selected derived_upload_target_commands
      then (do guard (is_absent path) Result.derived_with_path; plain_report selected [])
      else (do
        guard (member selected literal_upload_target_commands) Result.not_an_upload_target
        encoded ← literal_path path
        plain_report selected encoded)

unfoldable pub build_upload_data_request : ℤ → Value → Bool → Result Bytes
unfolding found
build_upload_data_request sequence v final = do
  guard (between 0 0xFFFFFFFF sequence) Result.upload_sequence_range
  payload ← found (to_bytes v) (protocol_error Result.upload_data_type)
  build_normal_report (pos (value Numbers.upload_append_data)) payload
      (if final then pos 2 else pos 1) sequence

unfoldable pub build_upload_commit_request : Result Bytes
unfolding plain_report
build_upload_commit_request = plain_report Numbers.upload_commit []

unfoldable pub build_upgrade_request : ℤ → ℤ → Result Bytes
build_upgrade_request mode command = do
  guard (is_upgrade_trigger_command command) Result.trigger_range
  payload ← upgrade_flag_payload mode
  build_normal_report command payload (pos 1) (pos 0)
