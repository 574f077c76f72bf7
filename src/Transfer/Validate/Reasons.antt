-- ===== src/Transfer/Validate/Reasons.antt =====
-- Why the validator refuses an entry (internal/transfer/validate.go), and its verdicts.
use go_claude_teleport.Base.{Bytes}
use go_claude_teleport.Transfer.Roots.{Fault}

pub data Reason : Type 0 where
  unclean_path unknown_category outside_home : Reason
  outside_config_dir no_relative_path : Reason
  forbidden_path : Bytes → Reason
  no_capture_path : Reason
  other_capture_path : Bytes → Reason
  capture_not_regular : Reason
  no_root : Reason
  bad_root : Bytes → Fault → Reason
  not_resolved : Reason
  lands_outside : Bytes → Bytes → Reason
  root_not_seen root_not_directory root_not_claimed root_not_own : Bytes → Reason
  no_target absolute_target escaping_target target_not_resolved boundary_not_resolved : Reason
  target_lands_outside : Bytes → Bytes → Reason

-- An entry is accepted, refused for a reason, or a call that is no refusal failed.
pub data Verdict : Type 0 where
  accepted : Verdict
  refused : Reason → Verdict
  fails : Verdict
