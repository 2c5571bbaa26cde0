-- ===== src/Leases/Verify.antt =====
-- The loop that verifies a destroy (lease.rs verify_gone) ends, and what it ends with.
use native.Mathlib.Nat.{mod-add-div', mod-lt}
use chuk_mcp_training.Base.{
  ℕ, zero, suc, ◌+◌, ◌*◌, ◌/◌, ◌≤◌, ◌<◌, String, ◌≡◌, refl, true, false, Option, none, some, leb,
  arith, Bool-cases, inl, inr, leb→le,
}
use chuk_mcp_training.Leases.Manager.{
  InstanceStatus, running, gone, unknown, Provider, Outside, VerifyPolicy, Manager, ◌>>=◌, asks,
  call, or_fail, pure, fail, polls_exhausted,
}
use chuk_mcp_training.Leases.Teardown.{is_gone, answer, poll_gone, verify_gone}
use chuk_mcp_training.Leases.Rules.{Ends}

-- What the loop needs of the clock: it does not go back while a provider answers, and a sleep lasts as
-- long as it was asked to.
pub record Timely {W : Type 0} (out : Outside W) (p : Provider W) : Type 0 where
  pub asked : (id : String) (w : W) → out.instant w ≤ out.instant (p.status id w).0
  pub slept : (d : ℕ) (w : W) → out.instant w + d ≤ out.instant (out.sleep d w)

module _ {W : Type 0} (out : Outside W) (p : Provider W) (id : String) where
  -- What a status stands for: `gone` is the provider's own answer, any other status means that the
  -- deadline has passed.
  abbrev pub Stands : ℕ → InstanceStatus → W → Type 0
  Stands deadline gone w = (v : W) × (p.status id v ≡ (w, some gone))
  Stands deadline running w = deadline ≤ out.instant w
  Stands deadline unknown w = deadline ≤ out.instant w

  abbrev pub Polled : ℕ → W × Option InstanceStatus → Type 0
  Polled deadline (w, none) = ⊥
  Polled deadline (w, some s) = Stands deadline s w

module _ {W : Type 0} (out : Outside W) (verify : VerifyPolicy) (p : Provider W) (id : String) where
  Stands-late :
      (deadline : ℕ) (s : InstanceStatus) (w : W)
      → is_gone s ≡ false
      → deadline ≤ out.instant w
      → Stands out p id deadline s w
  Stands-late deadline gone w e h = absurd cc
  Stands-late deadline running w e h = h
  Stands-late deadline unknown w e h = h

  Polled-gone :
      (deadline : ℕ) (v : W) (r : W × Option InstanceStatus)
      → p.status id v ≡ r
      → is_gone (answer r.1) ≡ true
      → Polled out p id deadline (r.0, some gone)
  Polled-gone deadline v (w, none) e g = absurd cc
  Polled-gone deadline v (w, some gone) e g = (v, e)
  Polled-gone deadline v (w, some running) e g = absurd cc
  Polled-gone deadline v (w, some unknown) e g = absurd cc

  -- One poll, given what the polls after it end with.
  poll_gone-step :
      (n deadline : ℕ) (w : W)
      → (leb deadline (out.instant (p.status id w).0) ≡ false
          → Polled out p id deadline
              (poll_gone out verify n deadline p id (out.sleep verify.poll (p.status id w).0)))
      → Polled out p id deadline (poll_gone out verify (suc n) deadline p id w)
  unfolding poll_gone
  poll_gone-step n deadline w rest = elim (Bool-cases (is_gone (answer (p.status id w).1))) [
    | inl g ↦ rw g (Polled-gone deadline w (p.status id w) refl g)
    | inr g ↦ rw g (elim (Bool-cases (leb deadline (out.instant (p.status id w).0))) [
      | inl l ↦ rw l (Stands-late deadline _ _ g (leb→le _ _ l))
      | inr l ↦ rw l (rest l)
    ])
  ]

  poll_gone-Polled :
      Timely out p
      → (n deadline : ℕ) (w : W) → deadline ≤ out.instant w + n * verify.poll
      → Polled out p id deadline (poll_gone out verify (suc n) deadline p id w)
  poll_gone-Polled timely zero deadline w h =
      poll_gone-step zero deadline w λ l. absurd (ground (arith, h, l, timely.asked id w))
  poll_gone-Polled timely (suc n) deadline w h = poll_gone-step (suc n) deadline w λ l.
      poll_gone-Polled timely n deadline (out.sleep verify.poll (p.status id w).0)
        (omega (arith, h, timely.asked id w, timely.slept verify.poll (p.status id w).0))

  Polled-Ends :
      (g : Manager W) (deadline : ℕ) (r : W × Option InstanceStatus)
      → Polled out p id deadline r
      → Ends
          (λ s h. (h ≡ record g { world = h.world }) × Stands out p id deadline s h.world)
          (or_fail polls_exhausted r.1 (record g { world = r.0 }))
  unfolding or_fail pure fail
  Polled-Ends g deadline (w, none) h = h
  Polled-Ends g deadline (w, some s) h = (refl, h)

  -- The rounds of the fuel last as long as the timeout.
  rounds : (t d : ℕ) → 0 < d → t ≤ suc (t / d) * d
  rounds t d h = omega (arith, mod-add-div' t d, mod-lt t h)

  -- Where the clock runs and the time between two polls is not 0, the verification of a destroy ends: it
  -- returns `gone` only on the provider's own word and anything else only once the timeout has passed,
  -- and it changes nothing of the manager but the world.
  pub verify_gone-Stands :
      (g : Manager W)
      → Timely out p
      → 0 < verify.poll
      → Ends
          (λ s h.
            (h ≡ record g { world = h.world })
            × Stands out p id (out.instant g.world + verify.timeout) s h.world)
          (verify_gone out verify p id g)
  unfolding verify_gone asks call ◌>>=◌
  verify_gone-Stands g timely positive = Polled-Ends g (out.instant g.world + verify.timeout) _ (
      poll_gone-Polled timely (suc (verify.timeout / verify.poll)) _ g.world
        (ordered (out.instant g.world) (rounds verify.timeout verify.poll positive)))
    where
      ordered : {a b : ℕ} (c : ℕ) → a ≤ b → c + a ≤ c + b
      ordered c h = omega (arith, h)
