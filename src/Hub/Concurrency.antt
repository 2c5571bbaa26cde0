-- ===== src/Hub/Concurrency.antt =====
-- The children of a sweep under a pass of the scheduler (hub/schedule.rs: pump and its hold on sweeps).
use chuk_mcp_training.Base.{
  ℕ, suc, ◌≤◌, ◌<◌, String, ◌==◌, ◌≡◌, refl, sym, subst, ◌∙◌, ◌⊎◌, inl, inr, Bool, true, false, not,
  ◌&&◌, Option, none, some, List, [], ◌∷◌, All, Distinct, arith, modify, find, find_test, find-All,
  count_of, Bool-cases, eq_iff, max,
}
use chuk_mcp_training.Proto.Run.{RunState, queued, assigned}
use chuk_mcp_training.Store.Tables.{Run, Datum, SweepRow}
use chuk_mcp_training.Store.Runs.{
  has_id, moved, transition, add_event, of_sweep, is_active, sweep, sweep_active_children, state_eq,
  run,
}
use chuk_mcp_training.Hub.State.{Env, Hub, update_store}
use chuk_mcp_training.Hub.Keeps.{Keeps, Keeps-update_store}
use chuk_mcp_training.Hub.RunRows.{Tables, Kept, page, page-All, is_free, pick_cases}
use chuk_mcp_training.Hub.PumpRows.{pump-Kept}
use chuk_mcp_training.Hub.Schedule.{pump, next_assignable_queued}
use chuk_mcp_training.Hub.SweepRows.{
  count_split, count_part, count_others-modify, count_of-modify, ids, ids-modify, count_id, Agree,
  All-Agree, free_below,
}

-- A pass under one sweep with a limit, `bound` at least the limit.
module _ (i : String) (row : SweepRow) (bound : ℕ) (limited : 0 < row.concurrency)
    (fits : row.concurrency ≤ bound) where
  abbrev active_child : Run → Bool
  active_child r = of_sweep i r && is_active r.state

  abbrev Within : Tables
  Within runs seq sweeps =
      Distinct (ids runs)
      × (find (λ r. r.id == i) sweeps ≡ some row)
      × (count_of active_child runs ≤ bound)

  -- The sweep has room for the run, or the run is of no concern to it.
  abbrev Room : String → List Run → Type 0
  Room x runs = suc (count_of (λ r. active_child r && not (has_id x r)) runs) ≤ bound

  abbrev Outside : String → List Run → Type 0
  Outside x runs =
      (count_of active_child runs ≤ bound)
      × All (λ z. has_id x z ≡ true → of_sweep i z ≡ false) runs

  abbrev Pick : Run → Tables
  Pick r runs seq sweeps =
      Distinct (ids runs)
      × (find (λ r. r.id == i) sweeps ≡ some row)
      × (Room r.id runs ⊎ Outside r.id runs)

  leave : (h : Hub) (r : Run) → Kept (Pick r) h → Kept Within h
  leave h r p = record { all = (p.all.0, p.all.1, counted p.all.2) }
    where
      counted :
          Room r.id h.store.runs ⊎ Outside r.id h.store.runs
          → count_of active_child h.store.runs ≤ bound
      counted (inl room) = omega (
        arith,
        room,
        count_split active_child (has_id r.id) h.store.runs,
        count_id r.id h.store.runs p.all.0,
      )
      counted (inr out) = out.0

  out_of_count :
      (x : String) (f : Run → Run)
      → ((z : Run) → of_sweep i (f z) ≡ of_sweep i z)
      → (rs : List Run) → All (λ z. has_id x z ≡ true → of_sweep i z ≡ false) rs
      → All (λ z. has_id x z ≡ true → (active_child z ≡ false) × (active_child (f z) ≡ false)) rs
  out_of_count x f same [] h = tt
  out_of_count x f same (z ∷ rs) h =
      ((λ e. (ground (arith, h.0 e), ground (arith, h.0 e, same z))), out_of_count x f same rs h.1)

  out_after :
      (x : String) (f : Run → Run)
      → ((z : Run) → of_sweep i (f z) ≡ of_sweep i z)
      → ((z : Run) → (f z).id ≡ z.id)
      → (rs : List Run) → All (λ z. has_id x z ≡ true → of_sweep i z ≡ false) rs
      → All (λ z. has_id x z ≡ true → of_sweep i z ≡ false) (modify (has_id x) f rs)
  unfolding modify
  out_after x f same same_id [] h = tt
  out_after x f same same_id (z ∷ rs) h = elim (Bool-cases (z.id == x)) [
    | inl e ↦ rw e ((λ g. same z ∙ h.0 e), out_after x f same same_id rs h.1)
    | inr e ↦ rw e (h.0, out_after x f same same_id rs h.1)
  ]

  move :
      (at : ℕ) (r : Run) (state : RunState) (w : Option String) (d : List (String × Datum))
      → (state ≡ assigned) ⊎ (state ≡ queued)
      → Keeps (Kept (Pick r)) (update_store (transition at r.id state w none d))
  unfolding transition add_event moved
  move at r state w d to = Keeps-update_store _ λ h p. record {
    all = (
      subst Distinct
          (sym (ids-modify (has_id r.id) (moved at state w none) (λ z. refl) h.store.runs)) p.all.0,
      p.all.1,
      moves h.store.runs p.all.2,
    );
  }
    where
      moves :
          (rs : List Run)
          → Room r.id rs ⊎ Outside r.id rs
          → Room r.id (modify (has_id r.id) (moved at state w none) rs)
            ⊎ Outside r.id (modify (has_id r.id) (moved at state w none) rs)
      moves rs (inl room) = inl (
          omega (
            arith,
            room,
            count_others-modify active_child (has_id r.id) (moved at state w none) (λ z. refl) rs,
          ))
      moves rs (inr out) = inr (
        omega (
          arith,
          out.0,
          count_of-modify active_child (has_id r.id) (moved at state w none) rs
              (out_of_count r.id (moved at state w none) (λ z. refl) rs out.1),
        ),
        out_after r.id (moved at state w none) (λ z. refl) (λ z. refl) rs out.1,
      )

  All-Outside :
      (x : String) (y : Run) (rs : List Run)
      → x ≡ y.id
      → of_sweep i y ≡ false
      → Agree i rs y
      → All (λ z. has_id x z ≡ true → of_sweep i z ≡ false) rs
  All-Outside x y [] same out a = tt
  All-Outside x y (z ∷ rs) same out a =
      ((λ e. a.0 (subst (λ j. (z.id == j) ≡ true) same e) ∙ out), All-Outside x y rs same out a.1)

  source :
      (h : Hub) (r : Run)
      → next_assignable_queued h.store ≡ some r
      → Kept Within h
      → Kept (Pick r) h
  unfolding sweep sweep_active_children run
  source h r e p =
      let (y, found, fetched) = pick_cases h.store r e in
      let same = (eq_iff r.id y.id).0 (find_test (has_id y.id) h.store.runs r fetched) in
      let agrees =
        (find-All (λ x. Agree i h.store.runs x × (state_eq x.state queued ≡ true)) (is_free h.store)
          (page h.store) y
          (page-All (Agree i h.store.runs) h.store (All-Agree i h.store.runs p.all.0)) found).0 in
      record {
        all = (
          p.all.0,
          p.all.1,
          elim (Bool-cases (of_sweep i y)) [
            | inl t ↦ inl (
                omega (
                  arith,
                  free_below i h.store y row t p.all.1 limited
                      (find_test (is_free h.store) (page h.store) y found),
                  count_part active_child (has_id r.id) h.store.runs,
                  fits,
                ))
            | inr t ↦ inr (p.all.2, All-Outside r.id y h.store.runs same t agrees)
          ],
        );
      }

-- A pass brings no sweep above its limit: where the ids of the runs are distinct and the limit is not 0,
-- the sweep has after a pass of the scheduler, whether it succeeds or fails, at most as many assigned and
-- running children as its limit, or as it had before the pass where that was more.
pub pump-sweep_active_children :
    (env : Env) (at : ℕ) (i : String) (row : SweepRow) (h : Hub)
    → Distinct (ids h.store.runs)
    → sweep i h.store ≡ some row
    → 0 < row.concurrency
    → sweep_active_children i (pump env at h).1.store
      ≤ max (sweep_active_children i h.store) row.concurrency
unfolding sweep sweep_active_children
pump-sweep_active_children env at i row h d e limited =
    let bound = max (sweep_active_children i h.store) row.concurrency in
    let fits : row.concurrency ≤ bound = omega arith in
    ((pump-Kept (Pick i row bound limited fits) (source i row bound limited fits)
        (leave i row bound limited fits) env at (move i row bound limited fits at)).at
      h (record { all = (d, e, omega arith) })).all.2
