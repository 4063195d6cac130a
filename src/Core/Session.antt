-- ===== src/Core/Session.antt =====
-- ngenorca-core/src/session.rs and the identifiers of ngenorca-core/src/types.rs. A `SessionId` is the
-- number that its UUID is, a `UserId` and a `ChannelId` the bytes of its text, a time the nanoseconds
-- since an epoch.
use ngen_orca.Base.{ℕ, Option, Bytes}

pub data SessionState : Type 0 where
  active : SessionState
  idle : SessionState
  compacting : SessionState
  ended : SessionState

-- `maximum` is `Max`.
pub data ThinkingLevel : Type 0 where
  off : ThinkingLevel
  minimal : ThinkingLevel
  low : ThinkingLevel
  medium : ThinkingLevel
  high : ThinkingLevel
  maximum : ThinkingLevel

pub record Session : Type 0 where
  pub id : ℕ
  pub user_id : Option Bytes
  pub origin_channel : Bytes
  pub state : SessionState
  pub model : Bytes
  pub thinking_level : ThinkingLevel
  pub created_at : ℕ
  pub last_active : ℕ
  pub message_count : ℕ
  pub tokens_used : ℕ
