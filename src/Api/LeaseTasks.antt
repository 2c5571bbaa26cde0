-- ===== src/Api/LeaseTasks.antt =====
-- The tasks of the lease manager leave the tables of users and API keys alone.
use chuk_mcp_training.Base.Float.{F64}
use chuk_mcp_training.Base.{
  String, Bool, true, false, sym, subst, any, ◌==◌, Bool-cases, inl, inr, Option, none, some, List,
  if◌then◌else◌,
}
use chuk_mcp_training.Proto.Lease.{Lease, LeaseExtension}
use chuk_mcp_training.Proto.Role.{User, ApiKey}
use chuk_mcp_training.Store.Tables.{Store}
use chuk_mcp_training.Store.Fleet.{
  lease, set_lease_state, worker_left, create_lease, extended, extend_lease,
}
use chuk_mcp_training.Store.Ledger.{ledger_append}
use chuk_mcp_training.Store.Tokens.{create_join_token}
use chuk_mcp_training.Budget.Caps.{Breach}
use chuk_mcp_training.Leases.Manager.{
  Instance, InstanceStatus, ProvisionRequest, Provider, Outside, VerifyPolicy, Config, LeaseError,
  Manager, Outcome, done, failed, Task, and_then, ◌>>=◌, ◌>>◌, pure, fail, asks, update,
  update_store, call, or_fail, provider,
}
use chuk_mcp_training.Leases.Rows.{send_to-store}
use chuk_mcp_training.Leases.Teardown.{
  is_draining, drain, ledger, record_end, verify_gone, destroy_by, destroy_and_verify, teardown,
}
use chuk_mcp_training.Leases.Spending.{
  refusal, or_destroy, budget_check, mint_join_token, new_worker_id, exact_check, record_start,
  settle, provision, extension_check, extend_row, record_extension, extend,
}
use chuk_mcp_training.Api.Keeps.{Holds, TaskKeeps}

module _ {R : List User → List ApiKey → Type 0} {W : Type 0} where
  TaskKeeps-pure : {A : Type 0} (a : A) → TaskKeeps R {W = W} (pure a)
  unfolding pure
  TaskKeeps-pure a = record { at = λ g h. h }

  TaskKeeps-fail : {A : Type 0} (e : LeaseError) → TaskKeeps R {W = W} {A = A} (fail e)
  unfolding fail
  TaskKeeps-fail e = record { at = λ g h. h }

  TaskKeeps-asks : {A : Type 0} (f : Manager W → A) → TaskKeeps R {W = W} (asks f)
  unfolding asks
  TaskKeeps-asks f = record { at = λ g h. h }

  TaskKeeps-call : {A : Type 0} (f : W → W × A) → TaskKeeps R {W = W} (call f)
  unfolding call
  TaskKeeps-call f = record { at = λ g h. h }

  TaskKeeps-or_fail :
      {A : Type 0} (e : LeaseError) (o : Option A) → TaskKeeps R {W = W} (or_fail e o)
  unfolding or_fail
  TaskKeeps-or_fail e none = TaskKeeps-fail e
  TaskKeeps-or_fail e (some a) = TaskKeeps-pure a

  TaskKeeps-if :
      {A : Type 0} (b : Bool) (m n : Task W A)
      → TaskKeeps R {W = W} m
      → TaskKeeps R {W = W} n
      → TaskKeeps R {W = W} (if b then m else n)
  TaskKeeps-if true m n k l = k
  TaskKeeps-if false m n k l = l

  TaskKeeps-update :
      (f : Manager W → Manager W)
      → ((g : Manager W) → Holds R g.hub.store → Holds R (f g).hub.store)
      → TaskKeeps R {W = W} (update f)
  unfolding update
  TaskKeeps-update f k = record { at = k }

  TaskKeeps-update_store :
      (f : Store → Store)
      → ((s : Store) → Holds R s → Holds R (f s))
      → TaskKeeps R {W = W} (update_store f)
  unfolding update_store update
  TaskKeeps-update_store f k = record { at = λ g h. k g.hub.store h }

  TaskKeeps-bind :
      {A B : Type 0} (m : Task W A) (f : A → Task W B)
      → TaskKeeps R {W = W} m
      → ((a : A) → TaskKeeps R {W = W} (f a))
      → TaskKeeps R {W = W} (m >>= f)
  unfolding ◌>>=◌
  TaskKeeps-bind {A} {B} m f hm hf = record { at = λ g h. settled (m g) (hm.at g h) }
    where
      settled :
          (x : Manager W × Outcome A) → Holds R x.0.hub.store → Holds R (and_then x f).0.hub.store
      settled (k, done a) p = (hf a).at k p
      settled (k, failed e) p = p

  TaskKeeps-then :
      {A B : Type 0} (m : Task W A) (n : Task W B)
      → TaskKeeps R {W = W} m
      → TaskKeeps R {W = W} n
      → TaskKeeps R {W = W} (m >> n)
  unfolding ◌>>◌
  TaskKeeps-then m n hm hn = TaskKeeps-bind m (λ _. n) hm (λ _. hn)

  TaskKeeps-drain : (l : Lease) → TaskKeeps R {W = W} (drain l)
  unfolding drain set_lease_state
  TaskKeeps-drain l =
      TaskKeeps-then _ _
        (TaskKeeps-if (is_draining l.state) _ _ (TaskKeeps-pure tt)
          (TaskKeeps-update_store _ (λ s h. h)))
        (TaskKeeps-update _ (λ g h. subst (Holds R) (sym (send_to-store l.worker_id _ g.hub)) h))

  module _ (out : Outside W) where
    TaskKeeps-ledger :
        (l : Lease) (event : String) (minutes cost : F64)
        → TaskKeeps R (ledger out l event minutes cost)
    unfolding ledger ledger_append
    TaskKeeps-ledger l event minutes cost =
        TaskKeeps-bind _ _ (TaskKeeps-asks _) (λ now. TaskKeeps-update_store _ (λ s h. h))

    TaskKeeps-record_end : (l : Lease) (s : InstanceStatus) → TaskKeeps R (record_end out l s)
    unfolding record_end set_lease_state worker_left
    TaskKeeps-record_end l s = TaskKeeps-then _ _ (TaskKeeps-update_store _ (λ s h. h)) (
        TaskKeeps-then _ _ (TaskKeeps-update_store _ (λ s h. h)) (
          TaskKeeps-then _ _ (TaskKeeps-update _ (λ g h. h)) (
            TaskKeeps-bind _ _ (TaskKeeps-asks _)
              (λ now. TaskKeeps-then _ _ (TaskKeeps-ledger l _ _ _) (TaskKeeps-pure _)))))

    TaskKeeps-destroy_and_verify :
        (verify : VerifyPolicy) (l : Lease) → TaskKeeps R (destroy_and_verify out verify l)
    unfolding destroy_and_verify destroy_by verify_gone provider
    TaskKeeps-destroy_and_verify verify l = TaskKeeps-bind _ _ (TaskKeeps-or_fail _ _) (λ p.
        TaskKeeps-bind _ _ (TaskKeeps-call _) (λ accepted.
          TaskKeeps-if accepted _ _
            (TaskKeeps-bind _ _
              (TaskKeeps-bind _ _ (TaskKeeps-asks _)
                (λ deadline. TaskKeeps-bind _ _ (TaskKeeps-call _) (λ s. TaskKeeps-or_fail _ s)))
              (TaskKeeps-record_end l))
            (TaskKeeps-fail _)))

    pub TaskKeeps-teardown :
        (verify : VerifyPolicy) (worker_id : String) (drain_first : Bool)
        → TaskKeeps R (teardown out verify worker_id drain_first)
    unfolding teardown
    TaskKeeps-teardown verify worker_id drain_first =
        TaskKeeps-bind _ _ (TaskKeeps-asks _) (λ found.
          TaskKeeps-bind _ _ (TaskKeeps-or_fail _ found) (λ l.
            TaskKeeps-then _ _
              (TaskKeeps-if drain_first _ _ (TaskKeeps-drain l) (TaskKeeps-pure tt))
              (TaskKeeps-destroy_and_verify verify l)))

    TaskKeeps-budget_check : (name : String) (cost : F64) → TaskKeeps R (budget_check out name cost)
    unfolding budget_check
    TaskKeeps-budget_check name cost = TaskKeeps-bind _ _ (TaskKeeps-asks _) refused
      where
        refused : (b : Option Breach) → TaskKeeps R {W = W} (refusal b)
        refused none = TaskKeeps-pure tt
        refused (some b) = TaskKeeps-fail _

    pub TaskKeeps-mint_join_token :
        (worker_id : String) → TaskKeeps R (mint_join_token out worker_id)
    unfolding mint_join_token create_join_token
    TaskKeeps-mint_join_token worker_id = TaskKeeps-bind _ _ (TaskKeeps-call _) (λ token.
        TaskKeeps-bind _ _ (TaskKeeps-asks _) (λ now.
          TaskKeeps-bind _ _ (TaskKeeps-call _)
            (λ id. TaskKeeps-then _ _ (TaskKeeps-update_store _ (λ s h. h)) (TaskKeeps-pure _))))

    TaskKeeps-exact_check :
        (p : Provider W) (m : Instance) (name : String) (cost : F64)
        → TaskKeeps R (exact_check out p m name cost)
    unfolding exact_check
    TaskKeeps-exact_check p m name cost = record {
      at =
          λ g h. settled (budget_check out name cost g) ((TaskKeeps-budget_check name cost).at g h);
    }
      where
        settled :
            (x : Manager W × Outcome (Unit {0}))
            → Holds R x.0.hub.store
            → Holds R (or_destroy p m.id x).0.hub.store
        settled (k, done a) h = h
        settled (k, failed e) h = h

    TaskKeeps-record_start : (l : Lease) → TaskKeeps R (record_start out l)
    unfolding record_start create_lease
    TaskKeeps-record_start l =
        TaskKeeps-then _ _ (TaskKeeps-update_store _ created)
          (TaskKeeps-then _ _ (TaskKeeps-ledger l _ _ _) (TaskKeeps-pure _))
      where
        created : (s : Store) → Holds R s → Holds R (create_lease l s)
        created s h = elim (Bool-cases (any (λ x. x.worker_id == l.worker_id) s.leases)) [
          | inl e ↦ rw e h
          | inr e ↦ rw e h
        ]

    TaskKeeps-settle :
        (config : Config) (req : ProvisionRequest) (p : Provider W) (worker_id : String)
        (m : Instance)
        → TaskKeeps R (settle out config req p worker_id m)
    unfolding settle
    TaskKeeps-settle config req p worker_id m =
        TaskKeeps-then _ _ (TaskKeeps-exact_check p m _ _)
          (TaskKeeps-bind _ _ (TaskKeeps-asks _) (λ now. TaskKeeps-record_start _))

    pub TaskKeeps-provision :
        (config : Config) (req : ProvisionRequest) → TaskKeeps R (provision out config req)
    unfolding provision new_worker_id provider
    TaskKeeps-provision config req = TaskKeeps-bind _ _ (TaskKeeps-or_fail _ _) (λ p.
        TaskKeeps-then _ _ (TaskKeeps-budget_check req.provider _) (
          TaskKeeps-bind _ _ (TaskKeeps-bind _ _ (TaskKeeps-call _) (λ id. TaskKeeps-pure _))
            (λ worker_id. TaskKeeps-bind _ _ (TaskKeeps-mint_join_token worker_id) (λ join_token.
              TaskKeeps-bind _ _ (TaskKeeps-call _) (λ rented.
                TaskKeeps-bind _ _ (TaskKeeps-or_fail _ rented)
                  (λ m. TaskKeeps-settle config req p worker_id m))))))

    TaskKeeps-extension_check :
        (minutes : F64) (o : Option Lease) → TaskKeeps R (extension_check out minutes o)
    unfolding extension_check
    TaskKeeps-extension_check minutes none = TaskKeeps-pure tt
    TaskKeeps-extension_check minutes (some l) = TaskKeeps-budget_check l.provider _

    TaskKeeps-extend_row :
        (worker_id : String) (ext : LeaseExtension)
        → TaskKeeps R {W = W} (extend_row out worker_id ext)
    unfolding extend_row extend_lease
    TaskKeeps-extend_row worker_id ext = record {
      at = λ g h. extended_store (lease worker_id g.hub.store) g.hub.store h;
    }
      where
        extended_store :
            (o : Option Lease) (s : Store) → Holds R s → Holds R (extended worker_id ext o s).0
        extended_store none s h = h
        extended_store (some l) s h = h

    TaskKeeps-record_extension :
        (worker_id : String) (minutes : F64) (o : Option Lease)
        → TaskKeeps R (record_extension out worker_id minutes o)
    unfolding record_extension set_lease_state
    TaskKeeps-record_extension worker_id minutes none = TaskKeeps-pure tt
    TaskKeeps-record_extension worker_id minutes (some l) =
        TaskKeeps-then _ _
          (TaskKeeps-if (is_draining l.state) _ _ (TaskKeeps-update_store _ (λ s h. h))
            (TaskKeeps-pure tt))
          (TaskKeeps-ledger l _ _ _)

    pub TaskKeeps-extend :
        (worker_id : String) (minutes : F64) (reason : String)
        → TaskKeeps R (extend out worker_id minutes reason)
    unfolding extend
    TaskKeeps-extend worker_id minutes reason = TaskKeeps-bind _ _ (TaskKeeps-asks _) (λ found.
        TaskKeeps-then _ _ (TaskKeeps-extension_check minutes found) (
          TaskKeeps-bind _ _ (TaskKeeps-asks _) (λ now.
            TaskKeeps-bind _ _ (TaskKeeps-extend_row worker_id _) (λ updated.
              TaskKeeps-then _ _ (TaskKeeps-record_extension worker_id minutes updated)
                (TaskKeeps-pure updated)))))
