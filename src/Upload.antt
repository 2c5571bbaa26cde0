-- ===== src/Upload.antt =====
-- crates/chuk-train-controlplane/src/upload.rs over the filesystem backend of artifacts/fs.rs: the transfer
-- of blobs by a worker with its grant. The disk does not fail.
pub mod Keys
pub mod Coverage
use Prim.Native.String.{◌++◌}
use chuk_mcp_training.Base.{
  ℕ, String, Bool, true, false, Option, none, some, get, put, if◌then◌else◌,
}
use chuk_mcp_training.Base.Text.{strip_prefix, trim_end_matches}
use chuk_mcp_training.Proto.Keys.{is_safe_key}
use chuk_mcp_training.Grant.{Grant, may_write, may_read, resolve}
use chuk_mcp_training.Hub.State.{Bytes, Hub}

-- The responses.
pub data Transfer : Type 0 where
  unauthorized forbidden internal created no_such_artifact : Transfer
  content : Bytes → Transfer
  located : String → Bool → Transfer

-- BlobMethod
pub data BlobMethod : Type 0 where
  put_blob get_blob : BlobMethod

-- artifacts/fs.rs put, which refuses an unsafe key
unfoldable pub put_artifact : String → Bytes → Hub → Hub × Bool
put_artifact key bytes h =
    if is_safe_key key then (record h { blobs = put key bytes h.blobs }, true) else (h, false)

-- artifacts/fs.rs get, which refuses an unsafe key
unfoldable pub get_artifact : String → Hub → Option Bytes
get_artifact key h = if is_safe_key key then get key h.blobs else none

-- The bearer token of a header's text.
unfoldable pub grant_token : Option String → Option String
unfolding strip_prefix
grant_token none = none
grant_token (some v) = strip_prefix "Bearer " v

-- The lookup of a token, which drops an expired grant.
unfoldable pub resolve_in : ℕ → String → Hub → Hub × Option Grant
unfolding resolve
resolve_in at token h =
    (record h { grants = (resolve at token h.grants).0 }, (resolve at token h.grants).1)

-- authorize
unfoldable pub authorize : ℕ → Option String → Hub → Hub × Option Grant
unfolding grant_token resolve_in
authorize at header h = elim (grant_token header) [
  | none ↦ (h, none)
  | some token ↦ resolve_in at token h
]

-- upload past the store's answer, and past the grant
abbrev pub stored : Hub × Bool → Hub × Transfer
stored (h, true) = (h, created)
stored (h, false) = (h, internal)

unfoldable pub upload_by : String → Bytes → Hub × Option Grant → Hub × Transfer
unfolding may_write put_artifact
upload_by key body (h, none) = (h, unauthorized)
upload_by key body (h, some grant) =
    if may_write grant key then stored (put_artifact key body h) else (h, forbidden)

-- upload
unfoldable pub upload : ℕ → Option String → String → Bytes → Hub → Hub × Transfer
unfolding authorize upload_by
upload at header key body h = upload_by key body (authorize at header h)

-- fetch past the grant
abbrev pub found : Option Bytes → Transfer
found none = no_such_artifact
found (some bytes) = content bytes

unfoldable pub fetch_by : String → Hub × Option Grant → Hub × Transfer
unfolding may_read get_artifact
fetch_by key (h, none) = (h, unauthorized)
fetch_by key (h, some grant) =
    if may_read grant key then (h, found (get_artifact key h)) else (h, forbidden)

-- fetch
unfoldable pub fetch : ℕ → Option String → String → Hub → Hub × Transfer
unfolding authorize fetch_by
fetch at header key h = fetch_by key (authorize at header h)

abbrev pub allowed : BlobMethod → Grant → String → Bool
allowed put_blob grant key = may_write grant key
allowed get_blob grant key = may_read grant key

abbrev pub action : BlobMethod → String
action put_blob = "upload"
action get_blob = "fetch"

-- blob_url past the grant; the filesystem backend signs no URL
unfoldable pub blob_url_by : String → BlobMethod → String → Hub × Option Grant → Hub × Transfer
unfolding may_write may_read trim_end_matches
blob_url_by public_url method key (h, none) = (h, unauthorized)
blob_url_by public_url method key (h, some grant) =
    if allowed method grant key
    then (
      h,
      located (trim_end_matches b'/' public_url ++ ("/api/" ++ (action method ++ ("/" ++ key))))
          true,
    )
    else (h, forbidden)

-- blob_url
unfoldable pub blob_url : String → ℕ → Option String → BlobMethod → String → Hub → Hub × Transfer
unfolding authorize blob_url_by
blob_url public_url at header method key h =
    blob_url_by public_url method key (authorize at header h)
