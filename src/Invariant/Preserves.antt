-- ===== src/Invariant/Preserves.antt =====
-- What an invariant owes the services that write entitlements of one source.
use subscription_reconciler.Base.{String, ◌≡◌, Option, none}
use subscription_reconciler.Base.Int.{ℤ}
use subscription_reconciler.Clock.{Time}
use subscription_reconciler.Postgres.Client.Entitlements.{claim_due_carrier_entitlements}
use subscription_reconciler.Postgres.Client.Events.{
  insert_store_event, insert_marketplace_revocation, mark_event_processed,
}
use subscription_reconciler.Postgres.Client.Notifications.{schedule_notification}
use subscription_reconciler.Postgres.Client.Upsert.{upsert_entitlement}
use subscription_reconciler.Postgres.Models.{Db}
use subscription_reconciler.Postgres.Queries.Entitlements.{UpsertEntitlementParams}
use subscription_reconciler.Postgres.Queries.Events.{InsertStoreEventParams}
use subscription_reconciler.Postgres.Session.{Env, World, Result, ok, err, Action, Queries}
use subscription_reconciler.Postgres.Session.Keeps.{Keeps}
use subscription_reconciler.Postgres.Session.KeepsOk.{KeepsOk}
use subscription_reconciler.Postgres.Session.RollsBack.{RollsBack}
use subscription_reconciler.Postgres.Session.Transaction.{RollsBack-in_transaction}
use subscription_reconciler.Base.{sym, subst, refl}

pub record Preserves (P : Db → Type 0) (source : String) : Type 0 where
  pub schedule :
      (q : Queries) (user kind : String) (t : Time) → Keeps P (schedule_notification q user kind t)
  pub mark : (q : Queries) (event origin : String) → Keeps P (mark_event_processed q event origin)
  pub store_event : (q : Queries) (p : InsertStoreEventParams) → Keeps P (insert_store_event q p)
  pub revocation :
      (q : Queries) (event user : String) → Keeps P (insert_marketplace_revocation q event user)
  pub upsert :
      (q : Queries) (p : UpsertEntitlementParams) (trigger : Option String)
      → p.source ≡ source
      → KeepsOk P (upsert_entitlement q p trigger)
  pub claim :
      (limit : ℤ) (due_before : Time) → Keeps P (claim_due_carrier_entitlements limit due_before)

kept :
    {A : Type 0} (P : Db → Type 0) (m : Action A) (env : Env) (w : World) (x : Result A × World)
    → RollsBack m
    → KeepsOk P m
    → m env w ≡ x
    → P w.db
    → P x.1.db
kept P m env w (ok a, v) back k e h = k.at env w v a e h
kept P m env w (err x, v) back k e h = subst P (sym (back.at env w v x e)) h

-- What is all or nothing keeps an invariant that it keeps where it returns.
pub Keeps-of_RollsBack :
    {A : Type 0} {P : Db → Type 0} (m : Action A) → RollsBack m → KeepsOk P m → Keeps P m
Keeps-of_RollsBack {P} m back k = record { at = λ env w h. kept P m env w _ back k refl h }

upsert_alone-RollsBack :
    (p : UpsertEntitlementParams) (trigger : Option String)
    → RollsBack (upsert_entitlement none p trigger)
unfolding upsert_entitlement
upsert_alone-RollsBack p trigger = RollsBack-in_transaction _

-- An upsert in a transaction of its own.
pub upsert_alone-Keeps :
    {P : Db → Type 0} (p : UpsertEntitlementParams) (trigger : Option String)
    → KeepsOk P (upsert_entitlement none p trigger)
    → Keeps P (upsert_entitlement none p trigger)
upsert_alone-Keeps p trigger k = Keeps-of_RollsBack _ (upsert_alone-RollsBack p trigger) k

pub Keeps-both :
    {A : Type 0} {P Q : Db → Type 0} (m : Action A)
    → Keeps P m
    → Keeps Q m
    → Keeps (λ db. P db × Q db) m
Keeps-both m k l = record { at = λ env w (h, g). (k.at env w h, l.at env w g) }

pub KeepsOk-both :
    {A : Type 0} {P Q : Db → Type 0} (m : Action A)
    → KeepsOk P m
    → KeepsOk Q m
    → KeepsOk (λ db. P db × Q db) m
KeepsOk-both m k l = record {
  at = λ env w w' a e (h, g). (k.at env w w' a e h, l.at env w w' a e g);
}

-- Two invariants at once.
pub Preserves-both :
    {P Q : Db → Type 0} {source : String}
    → Preserves P source
    → Preserves Q source
    → Preserves (λ db. P db × Q db) source
Preserves-both k l = record {
  schedule = λ q user kind t. Keeps-both _ (k.schedule q user kind t) (l.schedule q user kind t);
  mark = λ q event origin. Keeps-both _ (k.mark q event origin) (l.mark q event origin);
  store_event = λ q p. Keeps-both _ (k.store_event q p) (l.store_event q p);
  revocation = λ q event user. Keeps-both _ (k.revocation q event user) (l.revocation q event user);
  upsert =
      λ q p trigger same. KeepsOk-both _ (k.upsert q p trigger same) (l.upsert q p trigger same);
  claim = λ limit due_before. Keeps-both _ (k.claim limit due_before) (l.claim limit due_before);
}
