-- ===== src/Session/Handshake.antt =====
-- ws.rs: the handshake and the session after it.
use Prim.Native.String.{◌++◌}
use chuk_mcp_training.Base.{
  ℕ, ◌/◌, String, ◌==◌, true, Option, none, some, List, [], ◌∷◌, Table, map, ltb, if◌then◌else◌,
}
use chuk_mcp_training.Base.Text.{trim_end_matches}
use chuk_mcp_training.Base.Decimal.{show_ℕ}
use chuk_mcp_training.Proto.Run.{Hardware}
use chuk_mcp_training.Wire.{WorkerClass, leased, persistent, WorkerToCp}
use chuk_mcp_training.Hub.State.{Env, Hub, ok, err, Result, resume_high_water}
use chuk_mcp_training.Hub.Connection.{attach, detach}
use chuk_mcp_training.Hub.Messages.{on_message}
use chuk_mcp_training.Session.Admission.{Resume, Gatekeeper, resolve_join}

-- GpuInfo, without the CUDA version
pub record GpuInfo : Type 0 where
  pub name : String
  pub vram_bytes : ℕ
  pub driver_version : Option String

-- Accelerator
pub data Accelerator : Type 0 where
  cuda : List GpuInfo → Accelerator
  mps : String → ℕ → Accelerator
  cpu : Accelerator

-- Capabilities, the fields that the session reads
pub record Capabilities : Type 0 where
  pub os : String
  pub arch : String
  pub accelerator : Accelerator
  pub labels : Table String

-- The payload of WorkerToCp::Hello that the session reads
pub record Hello : Type 0 where
  pub protocol_version : ℕ
  pub target_triple : String
  pub token : String
  pub capabilities : Capabilities
  pub resume : Option Resume

-- What the session answers: CpToWorker::HelloAck and HelloReject.
pub data Reply : Type 0 where
  hello_ack : String → WorkerClass → ℕ → Reply
  hello_reject : String → ℕ → Option String → Option String → Reply

-- reject
unfoldable pub reject : String → Reply
reject reason = hello_reject reason 1 none none

-- The reason of a version reject.
unfoldable pub too_old : ℕ → String
too_old min = "worker protocol below the minimum (" ++ show_ℕ min ++ ")"

-- version_reject
unfoldable pub version_reject : Gatekeeper → WorkerClass → String → Reply
unfolding too_old trim_end_matches
version_reject gate leased target =
    hello_reject (too_old gate.min_protocol) gate.min_protocol none none
version_reject gate persistent target = elim (gate.binary_sha target) [
  | none ↦ hello_reject (too_old gate.min_protocol) gate.min_protocol none none
  | some sha256 ↦
      hello_reject (too_old gate.min_protocol) gate.min_protocol
        (some (trim_end_matches 47 gate.public_url ++ "/agent/" ++ target)) (some sha256)
]

-- labels_of
unfoldable pub labels_of : Capabilities → List String
labels_of caps = map (λ e. if e.1 == "" then e.0 else e.0 ++ "=" ++ e.1) caps.labels

-- The accelerator's part of hardware_of
unfoldable pub gpu_of : Accelerator → Option String × Option ℕ × Option String
gpu_of (cuda []) = (none, none, none)
gpu_of (cuda (d ∷ ds)) = (some d.name, some (d.vram_bytes / 1048576), d.driver_version)
gpu_of (mps chip bytes) = (some chip, some (bytes / 1048576), none)
gpu_of cpu = (none, none, none)

-- hardware_of
unfoldable pub hardware_of : Capabilities → Hardware
unfolding gpu_of
hardware_of caps = record {
  host = caps.os ++ "-" ++ caps.arch;
  os = caps.os;
  gpu = (gpu_of caps.accelerator).0;
  vram_mb = (gpu_of caps.accelerator).1;
  driver = (gpu_of caps.accelerator).2;
}

-- The messages of a session, an error of one being logged and dropped.
unfoldable pub serve : Env → String → List (ℕ × WorkerToCp) → Hub → Hub
serve env id [] h = h
serve env id ((at, msg) ∷ msgs) h = serve env id msgs (on_message env at id msg h).1

-- What follows the acknowledgement. A session whose attach fails ends without a detach.
unfoldable pub attached :
    Env → ℕ → String → WorkerClass → List (ℕ × WorkerToCp) → Result (Unit {0}) × Hub → Hub
unfolding serve
attached env end id class msgs (err e, h) = h
attached env end id class msgs (ok u, h) = (detach env end id class (serve env id msgs h)).1

-- What follows the admission, with the messages that come and the time of the end.
unfoldable pub admitted :
    Env
    → Gatekeeper
    → ℕ
    → ℕ
    → Hello
    → List (ℕ × WorkerToCp)
    → Option (String × WorkerClass)
    → Hub
    → Hub × Reply
unfolding reject version_reject labels_of hardware_of attached
admitted env gate at end hello msgs none h = (h, reject "bad join token")
admitted env gate at end hello msgs (some (id, class)) h =
    if ltb hello.protocol_version gate.min_protocol
    then (h, version_reject gate class hello.target_triple)
    else (
      attached env end id class msgs (
          attach env at id (record { is_open = true; sent = [] }) (labels_of hello.capabilities)
            (hardware_of hello.capabilities) h),
      hello_ack id class (resume_high_water id h),
    )

-- session, from a Hello on
unfoldable pub session :
    Env → Gatekeeper → ℕ → ℕ → Hello → List (ℕ × WorkerToCp) → Hub → Hub × Reply
unfolding resolve_join admitted
session env gate at end hello msgs h =
    admitted env gate at end hello msgs (resolve_join gate at hello.token hello.resume h.store).1
      (record h { store = (resolve_join gate at hello.token hello.resume h.store).0 })
