-- ===== src/Grant/Scope.antt =====
-- The scope of a grant (grant.rs: may_write and may_read).
use Prim.Native.String.append
use Prim.Native.String.{◌++◌}
use Prim.Native.Char.{Char, code}
use text.Mathlib.Text.{starts_with}
use text.Mathlib.TextLemmas.{append_assoc}
use text.Mathlib.TextEquality.{starts_with_iff}
use chuk_mcp_training.Base.{
  ℕ, String, ◌≡◌, Bool, true, false, Option, none, some, not, Bool-cases, inl, inr, ◌&&◌, eqb,
  arith, ap, sym, ◌∙◌, refl,
}
use chuk_mcp_training.Base.Text.{all_chars}
use chuk_mcp_training.Grant.{Grant, may_write, run_prefixes}

-- A text that is one segment of a path.
abbrev pub is_segment : String → Bool
is_segment s = all_chars (λ c. not (eqb c b'/')) s

uncons : String → Option (Char × String)
uncons String.[] = none
uncons (String.◌∷◌ c s) = some (c, s)

first : String → ℕ
first String.[] = 0
first (String.◌∷◌ c s) = code c

slash_first : (c : Char) (s : String) → code c ≡ b'/' → is_segment (String.◌∷◌ c s) ≡ false
unfolding all_chars
slash_first c s e = rw e refl

pub front :
    (c : Char) (a x : String) → (String.◌∷◌ c a) ++ ("/" ++ x) ≡ String.◌∷◌ c (a ++ ("/" ++ x))
front c a x = append.cons c a ("/" ++ x)

pub slash_front : (x : String) → "" ++ ("/" ++ x) ≡ String.◌∷◌ "/" x
slash_front x = append.nil ("/" ++ x) ∙ append.cons "/" "" x ∙ ap (String.◌∷◌ "/") (append.nil x)

pub and-true : (a b : Bool) → (a && b) ≡ true → (a ≡ true) × (b ≡ true)
and-true a b e = ground (arith, e)

segment_tail : (c : Char) (s : String) → is_segment (String.◌∷◌ c s) ≡ true → is_segment s ≡ true
unfolding all_chars
segment_tail c s e = (and-true _ _ e).1

-- A path's first segment and the rest are determined by the path.
segment_unique :
    (a b x y : String)
    → is_segment a ≡ true
    → is_segment b ≡ true
    → a ++ ("/" ++ x) ≡ b ++ ("/" ++ y)
    → (a ≡ b) × (x ≡ y)
unfolding uncons first
segment_unique String.[] String.[] x y s t e =
    let both = ap uncons (sym (slash_front x) ∙ e ∙ slash_front y) in (refl, cc both)
segment_unique String.[] (String.◌∷◌ d b) x y s t e =
    absurd (cc (slash_first d b (ap first (sym (sym (slash_front x) ∙ e ∙ front d b y))), t))
segment_unique (String.◌∷◌ c a) String.[] x y s t e =
    absurd (cc (slash_first c a (ap first (sym (front c a x) ∙ e ∙ slash_front y)), s))
segment_unique (String.◌∷◌ c a) (String.◌∷◌ d b) x y s t e =
    let heads = ap uncons (sym (front c a x) ∙ e ∙ front d b y) in
    let same = segment_unique a b x y (segment_tail c a s) (segment_tail d b t) (cc heads) in
    (cc (heads, same.0), same.1)

-- A key under one of the trees of a run.
abbrev pub InTree : String → String → Type 0
InTree run_id key =
    (tree r : String) × (is_segment tree ≡ true) × (tree ++ ("/" ++ (run_id ++ ("/" ++ r))) ≡ key)

starts_with-InTree :
    (tree run_id key : String)
    → is_segment tree ≡ true
    → starts_with key ((tree ++ "/") ++ (run_id ++ "/")) ≡ true
    → InTree run_id key
starts_with-InTree tree run_id key s e =
    let (r, same) = (starts_with_iff key ((tree ++ "/") ++ (run_id ++ "/"))).0 e in
    (
      tree,
      r,
      s,
      sym (
            append_assoc (tree ++ "/") (run_id ++ "/") r
            ∙ append_assoc tree "/" ((run_id ++ "/") ++ r)
            ∙ ap (λ z. tree ++ ("/" ++ z)) (append_assoc run_id "/" r))
          ∙ same,
    )

may_write-InTree : (g : Grant) (key : String) → may_write g key ≡ true → InTree g.run_id key
unfolding may_write run_prefixes all_chars
may_write-InTree g key e = elim (Bool-cases (starts_with key ("runs/" ++ (g.run_id ++ "/")))) [
  | inl t ↦ starts_with-InTree "runs" g.run_id key refl t
  | inr f ↦ elim (Bool-cases (starts_with key ("ckpt-hot/" ++ (g.run_id ++ "/")))) [
    | inl t ↦ starts_with-InTree "ckpt-hot" g.run_id key refl t
    | inr n ↦ starts_with-InTree "ckpt-final" g.run_id key refl (ground (arith, e, f, n))
  ]
]

-- Grants of different runs write different keys: a key that two grants may both write has one run, if
-- the ids of the runs are single segments of a path.
pub may_write-disjoint :
    (g k : Grant) (key : String)
    → is_segment g.run_id ≡ true
    → is_segment k.run_id ≡ true
    → may_write g key ≡ true
    → may_write k key ≡ true
    → g.run_id ≡ k.run_id
may_write-disjoint g k key s t e f =
    let (tree, r, p, at) = may_write-InTree g key e in
    let (other, q, o, also) = may_write-InTree k key f in
    let trees = segment_unique tree other _ _ p o (at ∙ sym also) in
    (segment_unique g.run_id k.run_id r q s t trees.1).0
