-- ===== src/Application/MarketplaceRevoke/Repeat.antt =====
-- A second batch in the same month.
use subscription_reconciler.Application.MarketplaceRevoke.{
  revocation_key, revoke_user, revoke_users, revoke_valid, revoke_marketplace_access,
}
use subscription_reconciler.Application.MarketplaceRevoke.Monthly.{
  revoke_user-ran, recorded_after, repeat_unchanged,
}
use subscription_reconciler.Base.{
  ℕ, ◌+◌, String, ◌≡◌, sym, ap, subst, ◌∙◌, Bool, true, false, List, [], ◌∷◌, ==_refl,
  if◌then◌else◌, arith, Option-cases, inl, inr,
}
use subscription_reconciler.Base.Lists.{All}
use subscription_reconciler.Clock.{Time}
use subscription_reconciler.Domain.Revoke.{
  MarketplaceRevokeRequest, MarketplaceRevokeResponse, validate,
}
use subscription_reconciler.Postgres.Models.{Db}
use subscription_reconciler.Postgres.Queries.Events.{has_revocation}
use subscription_reconciler.Postgres.Session.{
  Env, World, ok, pure, raise, ◌>>=◌, ask, time_now, next,
}
use subscription_reconciler.Postgres.Session.Implements.{bind-ran}

-- A user's event of the month of a batch.
abbrev pub event_of : (Time → String) → Time → String → String
event_of year_month batch_time user = revocation_key user (year_month batch_time)

kept_by_user :
    (event user other : String) (batch_time : Time) (env : Env) (w w' : World) (b : Bool)
    → has_revocation other w.db ≡ true
    → revoke_user event user batch_time env w ≡ (ok b, w')
    → has_revocation other w'.db ≡ true
kept_by_user event user other batch_time env w w' b h ran =
    let (now, done) = revoke_user-ran event user batch_time env w w' b ran in
    ground (arith, h, done, recorded_after now event user batch_time w.db other)

recorded_by_user :
    (event user : String) (batch_time : Time) (env : Env) (w w' : World) (b : Bool)
    → revoke_user event user batch_time env w ≡ (ok b, w')
    → has_revocation event w'.db ≡ true
recorded_by_user event user batch_time env w w' b ran =
    let (now, done) = revoke_user-ran event user batch_time env w w' b ran in
    ground (arith, done, ==_refl event, recorded_after now event user batch_time w.db event)

kept_by_users :
    (year_month : Time → String) (batch_time : Time) (users : List String) (n m : ℕ)
    (other : String) (env : Env) (w w' : World)
    → has_revocation other w.db ≡ true
    → revoke_users year_month batch_time users n env w ≡ (ok m, w')
    → has_revocation other w'.db ≡ true
unfolding revoke_users pure
kept_by_users year_month batch_time [] n m other env w w' h ran = ground (arith, h, ran)
kept_by_users year_month batch_time (user ∷ users) n m other env w w' h ran =
    let (b, v, first, rest) =
      bind-ran (revoke_user (event_of year_month batch_time user) user batch_time)
        (λ b. revoke_users year_month batch_time users (if b then n + 1 else n)) env w w' m ran in
    kept_by_users year_month batch_time users _ m other env v w'
      (kept_by_user (event_of year_month batch_time user) user other batch_time env w v b h first)
      rest

pub recorded_by_users :
    (year_month : Time → String) (batch_time : Time) (users : List String) (n m : ℕ) (env : Env)
    (w w' : World)
    → revoke_users year_month batch_time users n env w ≡ (ok m, w')
    → All (λ user. has_revocation (event_of year_month batch_time user) w'.db ≡ true) users
unfolding revoke_users
recorded_by_users year_month batch_time [] n m env w w' ran = tt
recorded_by_users year_month batch_time (user ∷ users) n m env w w' ran =
    let (b, v, first, rest) =
      bind-ran (revoke_user (event_of year_month batch_time user) user batch_time)
        (λ b. revoke_users year_month batch_time users (if b then n + 1 else n)) env w w' m ran in
    (
      kept_by_users year_month batch_time users _ m (event_of year_month batch_time user) env v w'
          (recorded_by_user (event_of year_month batch_time user) user batch_time env w v b first)
          rest,
      recorded_by_users year_month batch_time users _ m env v w' rest,
    )

-- A batch whose revocations are all on record counts no user and changes no table.
pub repeat_users :
    (year_month : Time → String) (batch_time : Time) (users : List String) (n m : ℕ) (env : Env)
    (w w' : World)
    → All (λ user. has_revocation (event_of year_month batch_time user) w.db ≡ true) users
    → revoke_users year_month batch_time users n env w ≡ (ok m, w')
    → (m ≡ n) × (w'.db ≡ w.db)
unfolding revoke_users pure
repeat_users year_month batch_time [] n m env w w' a ran = ground (arith, ran)
repeat_users year_month batch_time (user ∷ users) n m env w w' (known, a) ran =
    let event = event_of year_month batch_time user in
    let (b, v, first, rest) =
      bind-ran (revoke_user (event_of year_month batch_time user) user batch_time)
        (λ b. revoke_users year_month batch_time users (if b then n + 1 else n)) env w w' m ran in
    let (now, done) = revoke_user-ran event user batch_time env w v b first in
    let nothing : (false, w.db) ≡ (b, v.db) =
      sym (repeat_unchanged now event user batch_time w.db known) ∙ done in
    let same : w.db ≡ v.db = ap (λ (x : Bool × Db). x.1) nothing in
    let (count, kept) =
      repeat_users year_month batch_time users _ m env v w'
        (subst
          (λ (db : Db).
            All (λ u. has_revocation (event_of year_month batch_time u) db ≡ true) users)
          same a)
        rest in
    (count ∙ ap (λ (x : Bool × Db). if x.0 then n + 1 else n) (sym nothing), kept ∙ sym same)

pub accepted-ran :
    (r : MarketplaceRevokeRequest) (env : Env) (w w' : World) (x : MarketplaceRevokeResponse)
    → revoke_marketplace_access r env w ≡ (ok x, w')
    → revoke_users env.year_month (env.wall w.tick) r.user_ids 0 env (next w) ≡ (ok x.count, w')
unfolding revoke_marketplace_access revoke_valid ◌>>=◌ ask time_now raise pure
accepted-ran r env w w' x h = elim (Option-cases (validate r)) [
  | inr (e, bad) ↦ absurd (ground (arith, bad, h))
  | inl good ↦ ground (arith, good, h)
]
