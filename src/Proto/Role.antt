-- ===== src/Proto/Role.antt =====
-- crates/chuk-train-proto/src/domain.rs: the roles and the users; wire.rs: API keys as they are shown.
use chuk_mcp_training.Base.{ℕ, String, Bool, Option, leb}

-- Role, the least privileged first
pub data Role : Type 0 where
  read write admin sysadmin : Role

-- The position of a role in the derived order.
abbrev pub level : Role → ℕ
level read = 0
level write = 1
level admin = 2
level sysadmin = 3

-- The derived `>=`
unfoldable pub at_least : Role → Role → Bool
at_least role min = leb (level min) (level role)

-- Role::as_str
unfoldable pub as_str : Role → String
as_str read = "read"
as_str write = "write"
as_str admin = "admin"
as_str sysadmin = "sysadmin"

-- User, as a row of the table: its last column is not shown
pub record User : Type 0 where
  pub email : String
  pub team_id : String
  pub role : Role
  pub created_at : ℕ
  pub experiments_api_key_encrypted : Option String

-- ApiKeyInfo
pub record ApiKeyInfo : Type 0 where
  pub id : String
  pub team_id : String
  pub created_by : String
  pub name : String
  pub prefix : String
  pub role : Role
  pub created_at : ℕ
  pub last_used_at : Option ℕ
  pub revoked_at : Option ℕ

-- A row of `api_keys`
pub record ApiKey : Type 0 where
  pub key_hash : String
  pub info : ApiKeyInfo
