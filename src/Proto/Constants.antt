-- ===== src/Proto/Constants.antt =====
-- crates/chuk-train-proto/src/constants.rs: the constants that the modelled code reads. Durations
-- are in milliseconds.
use chuk_mcp_training.Base.{ℕ, String}
use chuk_mcp_training.Base.Int.{ℤ, negsuc}

-- HEARTBEAT_TIMEOUT
abbrev pub heartbeat_timeout : ℕ
heartbeat_timeout = 90000

-- HEARTBEAT_PREEMPT_TIMEOUT
abbrev pub heartbeat_preempt_timeout : ℕ
heartbeat_preempt_timeout = 600000

-- ASSIGNMENT_STUCK_TIMEOUT
abbrev pub assignment_stuck_timeout : ℕ
assignment_stuck_timeout = 60000

-- EXIT_CODE_AGENT_ERROR
abbrev pub exit_code_agent_error : ℤ
exit_code_agent_error = negsuc 0

-- EXIT_CODE_CANCELLED
abbrev pub exit_code_cancelled : ℤ
exit_code_cancelled = negsuc 14

abbrev pub gate_scope_run : String
gate_scope_run = "run"

-- WORKER_SAMPLE_RETENTION
abbrev pub worker_sample_retention : ℕ
worker_sample_retention = 900000

-- UPLOAD_GRANT_TTL
abbrev pub upload_grant_ttl : ℕ
upload_grant_ttl = 86400000

-- QUEUE_SCAN_LIMIT of hub/schedule.rs
abbrev pub queue_scan_limit : ℕ
queue_scan_limit = 500

-- DESTROY_VERIFY_TIMEOUT
abbrev pub destroy_verify_timeout : ℕ
destroy_verify_timeout = 120000

-- DESTROY_VERIFY_POLL
abbrev pub destroy_verify_poll : ℕ
destroy_verify_poll = 2000

-- JOIN_TOKEN_TTL
abbrev pub join_token_ttl : ℕ
join_token_ttl = 1800000

-- JOIN_TOKEN_PREFIX
abbrev pub join_token_prefix : String
join_token_prefix = "cj_"

-- MAX_SWEEP_CHILDREN
abbrev pub max_sweep_children : ℕ
max_sweep_children = 256

-- DEFAULT_TEAM_ID
abbrev pub default_team_id : String
default_team_id = "default"

-- API_KEY_PREFIX
abbrev pub api_key_prefix : String
api_key_prefix = "ck_"

-- WORKER_TOKEN_PREFIX
abbrev pub worker_token_prefix : String
worker_token_prefix = "cw_"
