-- ===== src/Application/EntitlementQuery/Priority.antt =====
-- The canonical entitlement is the active one of the highest priority (README.md, "Deterministic
-- Priority" and "Temporal Resolution").
use subscription_reconciler.Base.{
  ℕ, ◌≤◌, ◌<◌, ◌≡◌, ◌⊎◌, inl, inr, refl, sym, subst, true, false, Option, none, some, List, [], ◌∷◌,
  ◌&&◌, ltb, if◌then◌else◌, arith, Bool-cases,
}
use subscription_reconciler.Application.EntitlementQuery.{
  is_current, best_from, most_recent, active_response, resolve, resolve_best,
}
use subscription_reconciler.Base.Lists.{All}
use subscription_reconciler.Clock.{Time, after}
use subscription_reconciler.Domain.Entitlement.{EntitlementResponse, source_priority}
use subscription_reconciler.Postgres.Types.{Entitlement}
use mathlib.Core.List.{Memᴰ}

-- The priority of an entitlement that gives access now; 0 if it does not.
unfoldable pub rank : Time → Entitlement → ℕ
rank now e = if is_current now e then source_priority e.source else 0

All-mono :
    (now : Time) (m n : ℕ) (es : List Entitlement)
    → m ≤ n
    → All (λ e. rank now e ≤ m) es
    → All (λ e. rank now e ≤ n) es
All-mono now m n [] h a = tt
All-mono now m n (e ∷ es) h (a, rest) = (omega arith, All-mono now m n es h rest)

-- The loop keeps what it has, if nothing in the list outranks it, or ends with what does.
abbrev Best : Time → Option Entitlement → ℕ → List Entitlement → Option Entitlement → Type 0
Best now best top es r =
    ((r ≡ best) × All (λ e. rank now e ≤ top) es)
    ⊎ ((e : Entitlement) × (r ≡ some e)
        × Memᴰ e es
        × (is_current now e ≡ true)
        × (top < source_priority e.source)
        × All (λ x. rank now x ≤ source_priority e.source) es)

best_from-Best :
    (now : Time) (best : Option Entitlement) (top : ℕ) (es : List Entitlement)
    → Best now best top es (best_from now best top es)
unfolding best_from rank
best_from-Best now best top [] = inl (refl, tt)
best_from-Best now best top (e ∷ es) =
    elim (Bool-cases (is_current now e && ltb top (source_priority e.source))) [
      | inl hit ↦
          rw (hit, best_from)
            (taken hit (best_from-Best now (some e) (source_priority e.source) es))
      | inr miss ↦ rw (miss, best_from) (skipped miss (best_from-Best now best top es))
    ]
  where
    taken :
        (is_current now e && ltb top (source_priority e.source)) ≡ true
        → Best now
            (some e)
            (source_priority e.source)
            es
            (best_from now (some e) (source_priority e.source) es)
        → Best now best top (e ∷ es) (best_from now (some e) (source_priority e.source) es)
    taken hit (inl (r, a)) =
        inr (e, r, Memᴰ.head refl, ground arith, ground arith, (ground arith, a))
    taken hit (inr (x, r, m, c, l, a)) = inr (x, r, Memᴰ.tail m, c, ground arith, (ground arith, a))

    skipped :
        (is_current now e && ltb top (source_priority e.source)) ≡ false
        → Best now best top es (best_from now best top es)
        → Best now best top (e ∷ es) (best_from now best top es)
    skipped miss (inl (r, a)) = inl (r, (ground arith, a))
    skipped miss (inr (x, r, m, c, l, a)) = inr (x, r, Memᴰ.tail m, c, l, (ground arith, a))

most_recent-bounds :
    (best : Entitlement) (es : List Entitlement)
    → (best.updated_at ≤ (most_recent best es).updated_at)
      × All (λ x. x.updated_at ≤ (most_recent best es).updated_at) es
unfolding most_recent
most_recent-bounds best [] = (omega arith, tt)
most_recent-bounds best (e ∷ es) =
    let (b, a) = most_recent-bounds (if after e.updated_at best.updated_at then e else best) es in
    (ground (arith, b), (ground (arith, b), a))

-- Either the answer is a current entitlement of the list that no other outranks, or none is
-- current and the answer is NONE, dated by the latest update.
abbrev pub Canonical : Time → List Entitlement → EntitlementResponse → Type 0
Canonical now es r =
    ((e : Entitlement) × Memᴰ e es
      × (is_current now e ≡ true)
      × (r ≡ active_response e)
      × All (λ x. rank now x ≤ source_priority e.source) es)
    ⊎ ((r.active ≡ false)
        × (r.source ≡ "NONE")
        × All (λ x. rank now x ≤ 0) es
        × All (λ x. x.updated_at ≤ r.last_changed_at) es)

resolve_best-Canonical :
    (now : Time) (first : Entitlement) (rest : List Entitlement) (o : Option Entitlement)
    → Best now none 0 (first ∷ rest) o
    → Canonical now (first ∷ rest) (resolve_best o first rest)
unfolding resolve_best
resolve_best-Canonical now first rest o (inl (r, a)) =
    subst (λ x. Canonical now (first ∷ rest) (resolve_best x first rest)) (sym r)
      (inr (refl, refl, a, most_recent-bounds first rest))
resolve_best-Canonical now first rest o (inr (e, r, m, c, l, a)) =
    subst (λ x. Canonical now (first ∷ rest) (resolve_best x first rest)) (sym r)
      (inl (e, m, c, refl, a))

-- `GetCanonicalEntitlement` on any list of a user's entitlements: the answer is the current one
-- that none outranks by STORE > CARRIER > MARKETPLACE, expired ones counting for nothing; and
-- where none is current it is NONE, inactive, dated by the latest update.
pub resolve-Canonical : (now : Time) (es : List Entitlement) → Canonical now es (resolve now es)
unfolding resolve
resolve-Canonical now [] = inr (refl, refl, tt, tt)
resolve-Canonical now (e ∷ es) =
    resolve_best-Canonical now e es _ (best_from-Best now none 0 (e ∷ es))
