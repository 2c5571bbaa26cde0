-- ===== src/Hub/Steps.antt =====
-- The step of a checkpoint's key (keys.rs: checkpoint_dir, hub/messages.rs: step_from_uri).
use Prim.Native.Nat.{◌^◌}
use Prim.Native.String.append
use Prim.Native.String.{◌++◌}
use Prim.Native.Char.{Char, code}
use text.Mathlib.TextLemmas.{append_assoc}
use chuk_mcp_training.Base.{if◌then◌else◌}
use chuk_mcp_training.Base.{
  ℕ, ◌<◌, String, ◌≡◌, refl, ap, sym, ◌∙◌, true, not, ◌&&◌, eqb, leb, none, some, arith,
}
use chuk_mcp_training.Base.Text.{all_chars, rsplit_once, strip_prefix}
use chuk_mcp_training.Base.Decimal.{show_ℕ, parse_u64}
use chuk_mcp_training.Base.Digits.{is_digits, show_ℕ-Digits, parse_u64-show_ℕ}
use chuk_mcp_training.Proto.Keys.{checkpoint_dir}
use chuk_mcp_training.Grant.Scope.{is_segment, front, slash_front, and-true}
use chuk_mcp_training.Hub.Checkpoints.{step_from_uri}

no_slash : (k : ℕ) → (leb 48 k && leb k 57) ≡ true → not (eqb k b'/') ≡ true
no_slash k e = ground (arith, e)

is_segment-digits : (s : String) → is_digits s ≡ true → is_segment s ≡ true
unfolding is_digits all_chars
is_segment-digits String.[] e = refl
is_segment-digits (String.◌∷◌ c s) e =
    let both = and-true _ _ e in rw (no_slash (code c) both.0) (is_segment-digits s both.1)

segment-parts :
    (c : Char) (s : String)
    → is_segment (String.◌∷◌ c s) ≡ true
    → (not (eqb (code c) b'/') ≡ true) × (is_segment s ≡ true)
unfolding all_chars
segment-parts c s e = and-true (not (eqb (code c) b'/')) (is_segment s) e

is_segment-append :
    (a b : String) → is_segment a ≡ true → is_segment b ≡ true → is_segment (a ++ b) ≡ true
unfolding all_chars
is_segment-append String.[] b s t = rw (append.nil b) t
is_segment-append (String.◌∷◌ c a) b s t =
    let both = segment-parts c a s in
    rw (append.cons c a b) (rw both.0 (is_segment-append a b both.1 t))

other :
    (k : ℕ) (x : String × String)
    → not (eqb k b'/') ≡ true
    → (if eqb k b'/' then some x else none) ≡ none
other k x e = ground (arith, e)

rsplit_once-segment : (s : String) → is_segment s ≡ true → rsplit_once b'/' s ≡ none
unfolding rsplit_once
rsplit_once-segment String.[] e = refl
rsplit_once-segment (String.◌∷◌ c s) e =
    let both = segment-parts c s e in
    rw (rsplit_once-segment s both.1) (other (code c) ("", s) both.0)

rsplit_once-cons :
    (c : Char) (s p q : String)
    → rsplit_once b'/' s ≡ some (p, q)
    → rsplit_once b'/' (String.◌∷◌ c s) ≡ some (String.◌∷◌ c p, q)
unfolding rsplit_once
rsplit_once-cons c s p q e = rw e refl

rsplit_once-slash :
    (s : String) → rsplit_once b'/' s ≡ none → rsplit_once b'/' (String.◌∷◌ "/" s) ≡ some ("", s)
unfolding rsplit_once
rsplit_once-slash s e = rw e refl

-- The last segment of a path.
rsplit_once-append :
    (a s : String) → is_segment s ≡ true → rsplit_once b'/' (a ++ ("/" ++ s)) ≡ some (a, s)
rsplit_once-append String.[] s e =
    ap (rsplit_once b'/') (slash_front s) ∙ rsplit_once-slash s (rsplit_once-segment s e)
rsplit_once-append (String.◌∷◌ c a) s e =
    ap (rsplit_once b'/') (front c a s)
    ∙ rsplit_once-cons c (a ++ ("/" ++ s)) a s (rsplit_once-append a s e)

eqb-same : (k : ℕ) → eqb k k ≡ true
eqb-same k = ground arith

strip_prefix-append : (p s : String) → strip_prefix p (p ++ s) ≡ some s
unfolding strip_prefix
strip_prefix-append String.[] s = rw (append.nil s) refl
strip_prefix-append (String.◌∷◌ c p) s =
    rw (append.cons c p s) (rw (eqb-same (code c)) (strip_prefix-append p s))

dir-split :
    (run_id digits : String)
    → ("ckpt-hot/" ++ run_id) ++ ("/" ++ ("step_" ++ digits))
      ≡ "ckpt-hot/" ++ (run_id ++ ("/step_" ++ digits))
dir-split run_id digits =
    append_assoc "ckpt-hot/" run_id ("/" ++ ("step_" ++ digits))
    ∙ ap (λ x. "ckpt-hot/" ++ (run_id ++ x)) (sym (append_assoc "/" "step_" digits))

step_of_dir :
    (run_id digits : String)
    → is_digits digits ≡ true
    → step_from_uri ("ckpt-hot/" ++ (run_id ++ ("/step_" ++ digits))) ≡ parse_u64 digits
unfolding step_from_uri all_chars
step_of_dir run_id digits e =
    ap step_from_uri (sym (dir-split run_id digits))
    ∙ rw
        (
          rsplit_once-append ("ckpt-hot/" ++ run_id) ("step_" ++ digits)
              (is_segment-append "step_" digits refl (is_segment-digits digits e)),
          step_from_uri,
        )
        (rw (strip_prefix-append "step_" digits) refl)

-- The step of a checkpoint's directory is read back from its key, for every run id, even one with a
-- slash in it, and every step that a u64 holds.
pub step_from_uri-checkpoint_dir :
    (run_id : String) (step : ℕ)
    → step < 2 ^ 64
    → step_from_uri (checkpoint_dir run_id step) ≡ some step
unfolding checkpoint_dir
step_from_uri-checkpoint_dir run_id step h =
    step_of_dir run_id (show_ℕ step) (show_ℕ-Digits step) ∙ parse_u64-show_ℕ step h
