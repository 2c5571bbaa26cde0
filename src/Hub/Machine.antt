-- ===== src/Hub/Machine.antt =====
-- The life of a run as a state machine, and the messages of hub/messages.rs as its steps.
use chuk_mcp_training.Base.{
  ℕ, String, ◌==◌, ◌≡◌, subst, sym, inl, inr, true, false, All-implies, eq_iff,
}
use chuk_mcp_training.Proto.Run.{RunState, queued, assigned, running, is_terminal}
use chuk_mcp_training.Wire.{WorkerToCp}
use chuk_mcp_training.Store.Tables.{Run}
use chuk_mcp_training.Store.Runs.{moved}
use chuk_mcp_training.Hub.State.{Env, Hub}
use chuk_mcp_training.Hub.RunRows.{Rows}
use chuk_mcp_training.Hub.PumpRows.{Movable}
use chuk_mcp_training.Hub.GateRows.{Endable}
use chuk_mcp_training.Hub.MessageRows.{Startable, on_message-Rows}
use chuk_mcp_training.Hub.Messages.{on_message}

-- The edges: the scheduler takes a run from the queue, a run that has not ended starts, and any run ends.
pub data Edge : RunState → RunState → Type 0 where
  assigns : Edge queued assigned
  starts : {s : RunState} → is_terminal s ≡ false → Edge s running
  ends : {s t : RunState} → is_terminal t ≡ true → Edge s t

pub data Edges : RunState → RunState → Type 0 where
  none_more : {s : RunState} → Edges s s
  one_more : {s t u : RunState} → Edges s t → Edge t u → Edges s u

-- The rows of a run are where the machine leads from a state.
abbrev pub Led : String → RunState → Run → Type 0
Led run_id s x = (x.id == run_id) ≡ true → Edges s x.state

module _ (run_id : String) (s : RunState) where
  Led-movable : Movable (Led run_id s)
  unfolding moved
  Led-movable y x at state w was hy same to hx e = elim to [
    | inl a ↦ subst (Edges s) (sym a) (one_more in_queue assigns)
    | inr b ↦ subst (Edges s) (sym b) in_queue
  ]
    where
      in_queue : Edges s queued
      in_queue =
          subst (Edges s) was (hy (subst (λ i. (i == run_id) ≡ true) ((eq_iff x.id y.id).0 same) e))

  Led-endable : Endable (Led run_id s)
  unfolding moved
  Led-endable x at state w c t hx e = one_more (hx e) (ends t)

  Led-startable : Startable (Led run_id s)
  unfolding moved
  Led-startable x at w live hx e = one_more (hx e) (starts live)

  -- Whatever message a worker sends, and whether its handler succeeds or fails, every row of a run goes
  -- from the state of its rows along edges of the machine.
  pub on_message-Led :
      (env : Env) (at : ℕ) (id : String) (msg : WorkerToCp) (h : Hub)
      → Rows (λ x. (x.id == run_id) ≡ true → x.state ≡ s) h
      → Rows (Led run_id s) (on_message env at id msg h).1
  on_message-Led env at id msg h p =
      (on_message-Rows Led-movable Led-endable env at Led-startable id msg).at h (record {
        all = All-implies _ (Led run_id s) (λ x k e. subst (Edges s) (sym (k e)) none_more) _ p.all;
      })
