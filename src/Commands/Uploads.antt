-- ===== src/Commands/Uploads.antt =====
-- The upload commands of cc2camera/commands.py and the states that they move between.
use cc2_camera_fix.Base.{Bool, true, false, List, [], ◌∷◌}
use cc2_camera_fix.Base.Tests.{◌==◌, if◌then◌else◌}
use cc2_camera_fix.Base.Text.{Text, codes}
use cc2_camera_fix.Commands.Numbers.{NormalCommand, value}
use cc2_camera_fix.Commands.Numbers

pub data UploadState : Type 0 where
  idle need_target receiving ready_to_commit error : UploadState

pub record UploadCommandDescriptor : Type 0 where
  pub command : NormalCommand
  pub required_state : UploadState
  pub operation : Text
  pub normal_next_state : UploadState
  pub accepts_payload : Bool
  pub destructive : Bool

abbrev entry :
    NormalCommand → UploadState → Text → UploadState → Bool → Bool → UploadCommandDescriptor
entry c r o n p d = record {
  command = c;
  required_state = r;
  operation = o;
  normal_next_state = n;
  accepts_payload = p;
  destructive = d;
}

abbrev pub upload_commands : List UploadCommandDescriptor
upload_commands =
    entry Numbers.upload_initialize idle
      (codes "allocate 0x01000200-byte buffer and reset counters") need_target false false
    ∷ entry Numbers.upload_target_3110 need_target (codes "select literal destination path")
        receiving true false
    ∷ entry Numbers.upload_target_3111 need_target (codes "select literal destination path")
        receiving true false
    ∷ entry Numbers.upload_target_3112 need_target (codes "select literal destination path")
        receiving true false
    ∷ entry Numbers.upload_target_3113 need_target (codes "select literal destination path")
        receiving true false
    ∷ entry Numbers.upload_target_sensor_module need_target
        (codes "derive /system/lib/modules/sensor_%s_t31.ko") receiving false false
    ∷ entry Numbers.upload_target_sensor_configuration need_target
        (codes "derive /system/etc/sensor/%s-t31.bin") receiving false false
    ∷ entry Numbers.upload_target_3116 need_target (codes "select literal destination path")
        receiving true false
    ∷ entry Numbers.upload_target_3120 need_target (codes "select literal destination path")
        receiving true false
    ∷ entry Numbers.upload_target_3150 need_target
        (codes "select literal destination path through equivalent handler") receiving true false
    ∷ entry Numbers.upload_target_31f0 need_target (codes "select literal destination path")
        receiving true false
    ∷ entry Numbers.upload_append_data receiving
        (codes "append absolute-sequence-numbered data; type 2 marks final") receiving true false
    ∷ entry Numbers.upload_commit ready_to_commit
        (codes "remove target, write bytes, and chmod 0777") idle false true
    ∷ []

-- `command in commands`, for a frozenset of members
unfoldable pub member : NormalCommand → List NormalCommand → Bool
unfolding value
member c [] = false
member c (d ∷ ds) = if value d == value c then true else member c ds

abbrev pub literal_upload_target_commands : List NormalCommand
literal_upload_target_commands =
    Numbers.upload_target_3110 ∷ Numbers.upload_target_3111 ∷ Numbers.upload_target_3112
    ∷ Numbers.upload_target_3113 ∷ Numbers.upload_target_3116 ∷ Numbers.upload_target_3120
    ∷ Numbers.upload_target_3150 ∷ Numbers.upload_target_31f0 ∷ []

abbrev pub derived_upload_target_commands : List NormalCommand
derived_upload_target_commands =
    Numbers.upload_target_sensor_module ∷ Numbers.upload_target_sensor_configuration ∷ []
