-- ===== src/Hub/Cancel.antt =====
-- An operator's stop and resume (hub/control.rs).
use chuk_mcp_training.Base.{
  ℕ, String, ◌==◌, ◌≡◌, refl, subst, Bool, true, false, Option, none, some, All-modify, get, eq_iff,
}
use chuk_mcp_training.Proto.Constants.{exit_code_cancelled}
use chuk_mcp_training.Proto.Run.{cancelled, is_terminal}
use chuk_mcp_training.Store.Tables.{Run}
use chuk_mcp_training.Store.Runs.{has_id, moved, transition, add_event, run, coalesce}
use chuk_mcp_training.Hub.State.{
  Env, Hub, Link, cancel, ok, ◌>>=◌, ◌>>◌, pure, asks, update, update_store, or_fail, send_to,
  deliver,
}
use chuk_mcp_training.Hub.Keeps.{Keeps-then, Keeps-update}
use chuk_mcp_training.Hub.RunRows.{Rows, free_worker-Kept}
use chuk_mcp_training.Hub.PumpRows.{Movable, pump-Rows}
use chuk_mcp_training.Hub.GateRows.{mirror_state-Rows}
use chuk_mcp_training.Hub.Control.{cancel_now, signal_or_cancel, stop_run}

-- Whether the worker that a run names has an open link.
unfoldable pub is_reachable : Option String → Hub → Bool
is_reachable none h = false
is_reachable (some id) h = elim (get id h.links) [ none ↦ false | some l ↦ l.is_open ]

abbrev pub CancelledRow : String → Run → Type 0
CancelledRow run_id x =
    (x.id == run_id) ≡ true → (x.state ≡ cancelled) × (x.exit_code ≡ some exit_code_cancelled)

CancelledRow-movable : (run_id : String) → Movable (CancelledRow run_id)
unfolding is_terminal moved
CancelledRow-movable run_id y x at s w was hy same to hx e =
    absurd (cc ((hy (subst (λ i. (i == run_id) ≡ true) ((eq_iff x.id y.id).0 same) e)).0, was))

cancel_now-Cancelled :
    (env : Env) (at : ℕ) (run_id : String) (w : Option String) (h : Hub)
    → Rows (CancelledRow run_id) (cancel_now env at run_id w h).1
unfolding cancel_now transition add_event update_store update moved coalesce ◌>>◌ ◌>>=◌
cancel_now-Cancelled env at run_id w h =
    (Keeps-then _ _ (mirror_state-Rows env at run_id cancelled) (
        Keeps-then _ _ (Keeps-update _ λ g p. record { all = p.all }) (
          Keeps-then _ _ (free_worker-Kept w) (pump-Rows (CancelledRow-movable run_id) env at)))).at
      _
      (record {
        all =
            All-modify (CancelledRow run_id) (has_id run_id) _ (λ x e same. (refl, refl))
              (λ x e same. absurd (cc (e, same))) h.store.runs;
      })

deliver_closed :
    (id run_id : String) (l : Option Link) (h : Hub)
    → elim l [ none ↦ false | some x ↦ x.is_open ] ≡ false
    → deliver id (cancel run_id) l h ≡ (ok false, h)
unfolding deliver pure
deliver_closed id run_id none h e = refl
deliver_closed id run_id (some x) h e = rw e

signal_or_cancel-Cancelled :
    (env : Env) (at : ℕ) (run_id : String) (h : Hub) (w : Option String)
    → is_reachable w h ≡ false
    → Rows (CancelledRow run_id) (signal_or_cancel env at run_id w h).1
unfolding signal_or_cancel is_reachable send_to ◌>>=◌
signal_or_cancel-Cancelled env at run_id h none e = cancel_now-Cancelled env at run_id none h
signal_or_cancel-Cancelled env at run_id h (some id) e =
    rw (deliver_closed id run_id (get id h.links) h e)
      (cancel_now-Cancelled env at run_id (some id) h)

module _ (env : Env) (at : ℕ) (run_id : String) (r : Run) (h : Hub)
    (found : run run_id h.store ≡ some r) (live : is_terminal r.state ≡ false) where
  -- A stop of a live run that no open link leads to ends every row of it in `cancelled`, with the exit
  -- code of a cancel.
  pub stop_run-CancelledRow :
      is_reachable r.worker_id h ≡ false → Rows (CancelledRow run_id) (stop_run env at run_id h).1
  unfolding stop_run asks or_fail pure ◌>>=◌
  stop_run-CancelledRow unreachable =
      rw (found, or_fail)
        (rw live (signal_or_cancel-Cancelled env at run_id h r.worker_id unreachable))
