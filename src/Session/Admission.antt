-- ===== src/Session/Admission.antt =====
-- ws.rs: resolve_join, the admission of a token.
use Prim.Native.String.{◌++◌}
use chuk_mcp_training.Base.{ℕ, String, ◌==◌, Bool, true, false, Option, none, some, if◌then◌else◌}
use chuk_mcp_training.Base.Text.{strip_prefix, take_chars}
use chuk_mcp_training.Proto.Constants.{join_token_prefix}
use chuk_mcp_training.Wire.{WorkerClass, leased, persistent}
use chuk_mcp_training.Store.Tables.{Store, WorkerToken}
use chuk_mcp_training.Store.Tokens.{
  is_null, resolve_join_token, resolve_worker_token, touch_worker_token,
}

-- The worker id of wire::Resume; the rest of it is not read.
pub record Resume : Type 0 where
  pub worker_id : String

-- What the session takes from elsewhere: the hash, a fresh UUID, the checksum of an agent binary that is
-- served, and the configuration.
pub record Gatekeeper : Type 0 where
  pub hash_token : String → String
  pub uuid : String
  pub binary_sha : String → Option String
  pub join_token : String
  pub min_protocol : ℕ
  pub public_url : String

-- `resume.is_some_and(|r| r.worker_id.0 == worker_id.0)`
unfoldable pub resumes : Option Resume → String → Bool
resumes none id = false
resumes (some r) id = r.worker_id == id

-- admit_join_token
unfoldable pub admit_join_token :
    Option (String × Bool) → Option Resume → Option (String × WorkerClass)
unfolding resumes
admit_join_token none resume = none
admit_join_token (some (id, true)) resume = some (id, leased)
admit_join_token (some (id, false)) resume = if resumes resume id then some (id, leased) else none

-- str::starts_with
abbrev pub starts_with : String → String → Bool
starts_with prefix s = if is_null (strip_prefix prefix s) then false else true

-- The id of a worker that joins by the shared token: the one that it resumes, or a fresh one.
unfoldable pub shared_id : String → Option Resume → String
unfolding take_chars
shared_id uuid none = "w-" ++ take_chars 8 uuid
shared_id uuid (some r) = r.worker_id

-- The persistent arm of resolve_join.
unfoldable pub admit_worker_token :
    ℕ → Option WorkerToken → Store → Store × Option (String × WorkerClass)
unfolding touch_worker_token
admit_worker_token at none s = (s, none)
admit_worker_token at (some t) s = (touch_worker_token t.id at s, some (t.worker_id, persistent))

-- resolve_join
unfoldable pub resolve_join :
    Gatekeeper → ℕ → String → Option Resume → Store → Store × Option (String × WorkerClass)
unfolding admit_join_token resolve_join_token shared_id admit_worker_token resolve_worker_token
resolve_join gate at token resume s =
    if starts_with join_token_prefix token
    then (
      (resolve_join_token (gate.hash_token token) at s).0,
      admit_join_token (resolve_join_token (gate.hash_token token) at s).1 resume,
    )
    else (if token == gate.join_token
        then (s, some (shared_id gate.uuid resume, leased))
        else admit_worker_token at (resolve_worker_token (gate.hash_token token) s) s)
