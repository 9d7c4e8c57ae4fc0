-- ===== src/Wire/Receipt.antt =====
-- crates/portcode-sync/src/wire.rs: turn status, changed files and receipts, private and public.
use portcode.Common.{ℕ, Bool, List, Option, Text, ℤ}

pub data TurnStatus : Type 0 where
  completed cancelled error interrupted : TurnStatus

pub record TurnFailure : Type 0 where
  pub code : Text
  pub message : Text
  pub provider : Option Text
  pub model : Option Text
  pub http_status : Option ℕ
  pub transcript_messages : Option ℕ
  pub transcript_bytes : Option ℕ

pub data TurnPhase : Type 0 where
  provider_started agent_completed : TurnPhase

pub data TurnChangeCertainty : Type 0 where
  exact observed ambiguous unavailable : TurnChangeCertainty

pub data TurnChangeState : Type 0 where
  not_applicable no_change changed unknown_change : TurnChangeState

pub data TurnFileStatus : Type 0 where
  added modified deleted renamed copied unmerged : TurnFileStatus

pub record TurnChangedFile : Type 0 where
  pub path : Text
  pub old_path : Option Text
  pub status : TurnFileStatus
  pub additions : Option ℕ
  pub deletions : Option ℕ
  pub binary : Bool
  pub certainty : TurnChangeCertainty

pub record TurnReceipt : Type 0 where
  pub turn_id : Text
  pub account_profile_id : Option Text
  pub status : TurnStatus
  pub failure : Option TurnFailure
  pub stop_reason : Option Text
  pub started_at : ℤ
  pub completed_at : ℤ
  pub duration_ms : Option ℕ
  pub agent_duration_ms : Option ℕ
  pub changed_files : List TurnChangedFile
  pub changed_file_count : ℕ
  pub additions : ℕ
  pub deletions : ℕ
  pub files_truncated : Bool
  pub change_state : Option TurnChangeState
  pub change_certainty : TurnChangeCertainty
  pub background_tasks_running : Bool

pub record PhoneTurnChangedFile : Type 0 where
  pub path : Text
  pub old_path : Option Text
  pub status : TurnFileStatus
  pub additions : Option ℕ
  pub deletions : Option ℕ
  pub binary : Bool
  pub certainty : TurnChangeCertainty

pub record PhoneTurnReceipt : Type 0 where
  pub turn_id : Text
  pub status : TurnStatus
  pub stop_reason : Option Text
  pub started_at : ℤ
  pub completed_at : ℤ
  pub duration_ms : Option ℕ
  pub changed_files : List PhoneTurnChangedFile
  pub changed_file_count : ℕ
  pub additions : ℕ
  pub deletions : ℕ
  pub files_truncated : Bool
  pub change_certainty : TurnChangeCertainty
  pub background_tasks_running : Bool
