-- ===== src/Config.antt =====
-- code_executor_api/config.py
pub mod Env
pub mod Table
use code_executor_api.Prelude.{ℕ, Bool}

-- The settings that the modelled code reads, after import.
pub record Settings : Type 0 where
  pub max_sessions : ℕ
  pub max_concurrent_executions : ℕ
  pub session_inactivity_timeout_seconds : ℕ
  pub quota_enabled : Bool

-- The limits that the handlers apply.
pub record Limits : Type 0 where
  pub max_code_length : ℕ
  pub max_result_attachments : ℕ
  pub container_ulimit_fsize : ℕ
