-- ===== src/Base/Fold.antt =====
-- A fold whose steps may come in any order.
use mathlib.Core.List.{List, [], ◌∷◌, Perm, Permᴰ, Pairwise, rel_of_Pairwise-cons, mem-cons_self}
use mathlib.Core.List.Permᴰ as PermList
use mathlib.Core.List.Pairwise
use mathlib.Core.Logic.{∥∥₁_elim}
use mathlib.Core.Path.{◌≡◌, refl, ap, ◌∙◌}

module _ {ℓ κ} {S : Type ℓ} {A : Type κ} (step : S → A → S) where
  abbrev pub fold : S → List A → S
  fold s [] = s
  fold s (a ∷ rest) = fold (step s a) rest

module _ {A : Type 0} {S : Type 0} (step : S → A → S) (D : A → A → Type 0)
    (prop : (a b : A) → IsProp (D a b)) (symmetric : (a b : A) → D a b → D b a)
    (swap : (s : S) (a b : A) → D a b → step (step s a) b ≡ step (step s b) a) where
  fold-permᴰ :
      (s : S) {xs ys : List A} → Permᴰ xs ys → Pairwise D xs → fold step s xs ≡ fold step s ys
  fold-permᴰ s Permᴰ.nil d = refl
  fold-permᴰ s (Permᴰ.cons {a} {b} {l₁} {l₂} e p) d =
      fold-permᴰ (step s a) p (Pairwise.of_cons d) ∙ ap (λ x. fold step (step s x) l₂) e
  fold-permᴰ s (Permᴰ.swap {a} {b} {a'} {b'} {l} e f) d =
      ap (λ x. fold step x l) (swap s a b (rel_of_Pairwise-cons d mem-cons_self))
      ∙ ap (λ x. fold step x l) (ap (λ y. step (step s y) a) f ∙ ap (step (step s a')) e)
  fold-permᴰ s (Permᴰ.trans p q) d =
      fold-permᴰ s p d ∙ fold-permᴰ s q (PermList.pairwise prop symmetric p d)

  pub fold-perm :
      IsSet S
      → (s : S) {xs ys : List A} → Perm xs ys
      → Pairwise D xs
      → fold step s xs ≡ fold step s ys
  fold-perm set s p d = ∥∥₁_elim p (set _ _) (λ q. fold-permᴰ s q d)
