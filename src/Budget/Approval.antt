-- ===== src/Budget/Approval.antt =====
-- What an approval of budget.rs says of each budget: `evaluate` against the caps.
use chuk_mcp_training.Base.{
  ℕ, String, ◌≡◌, true, false, Bool, ◌&&◌, none, List, [], ◌∷◌, All, Bool-cases, inl, inr, arith,
}
use chuk_mcp_training.Base.Float.{F64, lt_f64}
use chuk_mcp_training.Proto.Lease.{Lease}
use chuk_mcp_training.Proto.Ledger.{LedgerEntry, Budget}
use chuk_mcp_training.Budget.Caps.{applies, projected, evaluate}

-- Each budget that is about the provider has a cap that is not below what is spent in its period and
-- committed, with a candidate's cost.
abbrev pub Covers : List LedgerEntry → List Lease → String → F64 → ℕ → List Budget → Type 0
Covers ledger live provider candidate now bs =
    All
      (λ b.
        applies b provider ≡ true → lt_f64 b.cap (projected ledger live candidate now b) ≡ false)
      bs

uncapped : (a b : Bool) → (a && b) ≡ false → a ≡ true → b ≡ false
uncapped a b e f = ground (arith, e, f)

-- An approval says so of every budget.
pub evaluate-Covers :
    (bs : List Budget) (ledger : List LedgerEntry) (live : List Lease) (provider : String)
    (candidate : F64) (now : ℕ)
    → evaluate bs ledger live provider candidate now ≡ none
    → Covers ledger live provider candidate now bs
unfolding evaluate
evaluate-Covers [] ledger live provider candidate now e = tt
evaluate-Covers (b ∷ bs) ledger live provider candidate now e =
    elim (Bool-cases (applies b provider && lt_f64 b.cap (projected ledger live candidate now b))) [
      | inl t ↦ absurd (cc (rw (t, evaluate) at e))
      | inr t ↦ (
        uncapped (applies b provider) _ t,
        evaluate-Covers bs ledger live provider candidate now (rw (t, evaluate) at e),
      )
    ]
