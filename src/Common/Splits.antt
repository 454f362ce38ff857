-- ===== src/Common/Splits.antt =====
-- Texts that are taken apart at a separator.
use Prim.Native.Nat.{ℕ}
use mathlib.Core.Path.{◌≡◌, refl, subst}
use mathlib.Core.List.{[], ◌∷◌, ◌++◌}
use risk_sentinel.Common.Lists.{Bytes, Lacks}

-- Two texts that are equal have the same part before the first separator ...
pub split_first :
    (sep : ℕ) (s s' t t' : Bytes)
    → Lacks sep s
    → Lacks sep s'
    → s ++ (sep ∷ t) ≡ s' ++ (sep ∷ t')
    → (s ≡ s') × (t ≡ t')
split_first sep [] [] t t' h h' e = (refl, cc)
split_first sep [] (c ∷ s') t t' h h' e = absurd (h'.0 (cc))
split_first sep (c ∷ s) [] t t' h h' e = absurd (h.0 (cc))
split_first sep (c ∷ s) (c' ∷ s') t t' h h' e =
    let (p, q) = split_first sep s s' t t' h.1 h'.1 (cc) in (cc, q)

no_separator : (sep : ℕ) (s t u : Bytes) → u ≡ s ++ (sep ∷ t) → Lacks sep u → ⊥
no_separator sep [] t u e h = (subst (Lacks sep) e h).0 refl
no_separator sep (c ∷ s) t u e h =
    no_separator sep s t (s ++ (sep ∷ t)) refl (subst (Lacks sep) e h).1

-- ... and the same part behind the last one.
pub split_last :
    (sep : ℕ) (s s' t t' : Bytes)
    → Lacks sep t
    → Lacks sep t'
    → s ++ (sep ∷ t) ≡ s' ++ (sep ∷ t')
    → t ≡ t'
split_last sep [] [] t t' h h' e = cc
split_last sep [] (c ∷ s') t t' h h' e = absurd (no_separator sep s' t' t (cc) h)
split_last sep (c ∷ s) [] t t' h h' e = absurd (no_separator sep s t t' (cc) h')
split_last sep (c ∷ s) (c' ∷ s') t t' h h' e = split_last sep s s' t t' h h' (cc)
