-- ===== src/Store/RunIds.antt =====
-- The ids of runs carry the number that they were made from (store/ids.rs).
use Prim.Native.Nat.{ℕ, zero, suc, ◌-◌}
use Prim.Native.Char.{Char, code}
use Prim.Native.String.append
use Prim.Native.String.{◌++◌}
use mathlib.Core.Option.{some-injective}
use chuk_mcp_training.Base.{
  String, Bool, true, false, ◌&&◌, ◌≡◌, refl, sym, ap, ◌∙◌, Option, none, some, eqb, leb, arith,
}
use chuk_mcp_training.Base.Text.{rsplit_once, all_chars, text_length}
use chuk_mcp_training.Base.Decimal.{show_ℕ, read_onto}
use chuk_mcp_training.Base.Digits.{is_digits, show_ℕ-Digits, read_onto-show_ℕ}
use chuk_mcp_training.Store.Ids.{zeros, padded, utc_parts, stamp, stamped_id, new_run_id}

no_minus : (k : ℕ) (rest : Bool) → ((leb 48 k && leb k 57) && rest) ≡ true → eqb k b'-' ≡ false
no_minus k rest e = ground (arith, e)

later_digits : (k : ℕ) (rest : Bool) → ((leb 48 k && leb k 57) && rest) ≡ true → rest ≡ true
later_digits k rest e = ground (arith, e)

-- A split of what follows a character.
rsplit_once-cons :
    (c : Char) (s : String) (p : String × String)
    → rsplit_once b'-' s ≡ some p
    → rsplit_once b'-' (String.◌∷◌ c s) ≡ some (String.◌∷◌ c p.0, p.1)
unfolding rsplit_once
rsplit_once-cons c s p e = rw e refl

-- Digits have no hyphen.
rsplit_once-digits : (s : String) → is_digits s ≡ true → rsplit_once b'-' s ≡ none
unfolding rsplit_once is_digits all_chars
rsplit_once-digits String.[] e = refl
rsplit_once-digits (String.◌∷◌ c s) e =
    rw (rsplit_once-digits s (later_digits (code c) (is_digits s) e))
      (rw (no_minus (code c) (is_digits s) e) refl)

-- A text is split before the digits that end it.
rsplit_once-append :
    (a d : String) → is_digits d ≡ true → rsplit_once b'-' (a ++ ("-" ++ d)) ≡ some (a, d)
unfolding rsplit_once
rsplit_once-append String.[] d e =
    rw (append.nil ("-" ++ d))
      (rw (append.cons "-" "" d) (rw (append.nil d) (rw (rsplit_once-digits d e) refl)))
rsplit_once-append (String.◌∷◌ c a) d e =
    rw (append.cons c a ("-" ++ d))
      (rsplit_once-cons c (a ++ ("-" ++ d)) (a, d) (rsplit_once-append a d e))

zeros-Digits : (n : ℕ) (s : String) → is_digits s ≡ true → is_digits (zeros n s) ≡ true
unfolding zeros is_digits all_chars
zeros-Digits zero s e = e
zeros-Digits (suc n) s e = zeros-Digits n s e

read_onto-zeros : (n : ℕ) (s : String) → read_onto 0 (zeros n s) ≡ read_onto 0 s
unfolding zeros read_onto
read_onto-zeros zero s = refl
read_onto-zeros (suc n) s = read_onto-zeros n s

-- The number at the end of an id.
abbrev seq_at : Option (String × String) → Option ℕ
seq_at none = none
seq_at (some p) = read_onto 0 p.1

seq_at-new_run_id : (at seq : ℕ) → seq_at (rsplit_once b'-' (new_run_id at seq)) ≡ some seq
unfolding new_run_id stamped_id padded
seq_at-new_run_id at seq =
    rw
      (rsplit_once-append ("EXEC-" ++ stamp (utc_parts at)) (padded 5 seq)
        (zeros-Digits (5 - text_length (show_ℕ seq)) (show_ℕ seq) (show_ℕ-Digits seq)))
      (read_onto-zeros (5 - text_length (show_ℕ seq)) (show_ℕ seq) ∙ read_onto-show_ℕ seq)

-- Ids of one text are of one number, whatever the times.
pub new_run_id-seq :
    (at seq later other : ℕ) → new_run_id at seq ≡ new_run_id later other → seq ≡ other
new_run_id-seq at seq later other e = some-injective _ _ (
    sym (seq_at-new_run_id at seq)
    ∙ ap (λ id. seq_at (rsplit_once b'-' id)) e
    ∙ seq_at-new_run_id later other)
