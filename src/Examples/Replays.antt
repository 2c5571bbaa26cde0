-- ===== src/Examples/Replays.antt =====
-- The theorems of Worker/Delivery and Worker/Backoff at a concrete outbox and concrete sessions.
use Prim.Native.Nat.{◌*◌}
use chuk_mcp_training.Base.{ℕ, ◌≡◌, refl, List, [], ◌∷◌, All, Bool, true, false, arith}
use chuk_mcp_training.Wire.{WorkerToCp, log, job_started}
use chuk_mcp_training.Hub.State.{resume_high_water}
use chuk_mcp_training.Hub.Messages.{event_seq}
use chuk_mcp_training.Hub.Replay.{receive}
use chuk_mcp_training.Worker.Outbox.{trim_to_high_water}
use chuk_mcp_training.Worker.Delivery.{Filed, Ascending, sent_by, seen, receive-trim_to_high_water}
use chuk_mcp_training.Worker.Backoff.{nanos, reconnects, IsBetween, reconnects-IsBetween}
use chuk_mcp_training.Examples.HubData.{env, hub}

-- The hub has acknowledged four.
abbrev outbox : List (ℕ × WorkerToCp)
outbox = (3, job_started 3 "busy") ∷ (4, log 4 "busy" "a") ∷ (5, log 5 "busy" "b") ∷ []

outbox-Filed : Filed outbox
unfolding event_seq
outbox-Filed = (refl, (refl, (refl, tt)))

outbox-Ascending : Ascending outbox
outbox-Ascending = ((omega arith, (omega arith, tt)), ((omega arith, tt), (tt, tt)))

receive-trim_to_high_water_example :
    receive env
      (sent_by 5 "w" (trim_to_high_water (resume_high_water "w" hub) outbox))
      (seen 5 "w" hub)
    ≡ receive env (sent_by 5 "w" outbox) (seen 5 "w" hub)
receive-trim_to_high_water_example =
    receive-trim_to_high_water env 5 "w" hub outbox outbox-Filed outbox-Ascending

abbrev sessions : List (Bool × ℕ)
sessions = (false, 7) ∷ (false, 18446744073709551615) ∷ (true, 3) ∷ []

reconnects-IsBetween_example :
    All (IsBetween (2 * nanos) (75 * nanos)) (reconnects (2 * nanos) sessions)
reconnects-IsBetween_example = reconnects-IsBetween (2 * nanos) (omega arith) (omega arith) sessions
