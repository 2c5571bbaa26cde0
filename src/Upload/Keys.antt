-- ===== src/Upload/Keys.antt =====
-- The keys of a run's checkpoints and of its code unit in the scope of its grant (grant.rs and the keys of
-- chuk-train-proto).
use Prim.Native.String.{◌++◌}
use text.Mathlib.Text.{starts_with}
use text.Mathlib.TextLemmas.{append_assoc}
use text.Mathlib.TextEquality.{starts_with_iff}
use chuk_mcp_training.Base.{ℕ, String, ◌≡◌, refl, sym, ap, ◌∙◌, true, arith}
use chuk_mcp_training.Base.Decimal.{show_ℕ}
use chuk_mcp_training.Proto.Keys.{
  code_unit_dir, code_unit_tarball, checkpoint_dir, checkpoint_file, is_safe_key,
}
use chuk_mcp_training.Grant.{Grant, run_prefixes, may_write, may_read}

starts_with-append : (p s : String) → starts_with (p ++ s) p ≡ true
starts_with-append p s = (starts_with_iff (p ++ s) p).1 (s, refl)

slash_step : (w : String) → "/" ++ ("step_" ++ w) ≡ "/step_" ++ w
slash_step w = sym (append_assoc "/" "step_" w)

pub checkpoint_key :
    (run_id : String) (step : ℕ) (file : String)
    → checkpoint_file run_id step file
      ≡ ("ckpt-hot/" ++ (run_id ++ "/")) ++ ("step_" ++ (show_ℕ step ++ ("/" ++ file)))
unfolding checkpoint_file checkpoint_dir
checkpoint_key run_id step file =
    append_assoc "ckpt-hot/" (run_id ++ ("/step_" ++ show_ℕ step)) ("/" ++ file)
    ∙ ap (λ x. "ckpt-hot/" ++ x)
        (append_assoc run_id ("/step_" ++ show_ℕ step) ("/" ++ file)
          ∙ ap (λ x. run_id ++ x)
              (append_assoc "/step_" (show_ℕ step) ("/" ++ file)
                ∙ sym (slash_step (show_ℕ step ++ ("/" ++ file))))
          ∙ sym (append_assoc run_id "/" ("step_" ++ (show_ℕ step ++ ("/" ++ file)))))
    ∙ sym (append_assoc "ckpt-hot/" (run_id ++ "/") ("step_" ++ (show_ℕ step ++ ("/" ++ file))))

pub output_key :
    (run_id rel : String)
    → ("ckpt-hot/" ++ run_id) ++ ("/" ++ rel) ≡ ("ckpt-hot/" ++ (run_id ++ "/")) ++ rel
output_key run_id rel =
    append_assoc "ckpt-hot/" run_id ("/" ++ rel)
    ∙ ap (λ x. "ckpt-hot/" ++ x) (sym (append_assoc run_id "/" rel))
    ∙ sym (append_assoc "ckpt-hot/" (run_id ++ "/") rel)

tarball_key :
    (name sha : String)
    → code_unit_tarball name sha ≡ (code_unit_dir name sha ++ "/") ++ "unit.tar.zst"
unfolding code_unit_tarball
tarball_key name sha = sym (append_assoc (code_unit_dir name sha) "/" "unit.tar.zst")

prefixed : (key p s : String) → key ≡ p ++ s → starts_with key p ≡ true
prefixed key p s e = ap (λ k. starts_with k p) e ∙ starts_with-append p s

-- A key of the run's checkpoints may be written and read, and one of its code unit read.
pub may_write-hot :
    (g : Grant) (key s : String)
    → key ≡ ("ckpt-hot/" ++ (g.run_id ++ "/")) ++ s
    → is_safe_key key ≡ true
    → may_write g key ≡ true
unfolding may_write run_prefixes
may_write-hot g key s e safe = ground (arith, prefixed key _ s e, safe)

pub may_read-hot :
    (g : Grant) (key s : String)
    → key ≡ ("ckpt-hot/" ++ (g.run_id ++ "/")) ++ s
    → is_safe_key key ≡ true
    → may_read g key ≡ true
unfolding may_read run_prefixes
may_read-hot g key s e safe = ground (arith, prefixed key _ s e, safe)

pub may_read-tarball :
    (g : Grant)
    → is_safe_key (code_unit_tarball g.code.name g.code.sha) ≡ true
    → may_read g (code_unit_tarball g.code.name g.code.sha) ≡ true
unfolding may_read run_prefixes
may_read-tarball g safe =
    ground (arith, prefixed _ _ "unit.tar.zst" (tarball_key g.code.name g.code.sha), safe)
