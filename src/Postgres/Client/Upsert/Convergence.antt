-- ===== src/Postgres/Client/Upsert/Convergence.antt =====
-- The order in which the changes of the channels arrive does not matter.
use subscription_reconciler.Base.{
  String, ◌≡◌, ◌≢◌, refl, sym, ◌∙◌, ap, Bool, Option, none, List, [], ◌∷◌, ◌&&◌, ◌==◌, String-set,
  if◌then◌else◌, arith,
}
use subscription_reconciler.Base.Fold.{fold, fold-perm}
use subscription_reconciler.Postgres.Client.Upsert.{upsert_entitlement}
use subscription_reconciler.Postgres.Client.Upsert.Refinement.{
  view, change_of, view-upsert_entitlement,
}
use subscription_reconciler.Postgres.Models.{Db}
use subscription_reconciler.Postgres.Queries.Entitlements.{UpsertEntitlementParams}
use subscription_reconciler.Postgres.Session.{Env, World, Result, ok, err, Action, pure, ◌>>=◌}
use subscription_reconciler.Spec.Register.{Snapshot, merge, merge_swap}
use mathlib.Core.List.{Perm, Pairwise}
use mathlib.Core.HLevel.{¬_prop}

-- A change with the event that caused it.
pub record Delivery : Type 0 where
  pub change : UpsertEntitlementParams
  pub trigger : Option String

-- Each delivery in a transaction of its own, one after another; an error ends the run.
unfoldable pub deliver_all : List Delivery → Action (Unit {0})
deliver_all [] = pure tt
deliver_all (d ∷ ds) = do changed ← upsert_entitlement none d.change d.trigger; deliver_all ds

-- What a delivery does to the register of a user and a source.
absorb : String → String → Option Snapshot → Delivery → Option Snapshot
absorb u s v d =
    if d.change.user_id == u && d.change.source == s then merge v (change_of d.change) else v

abbrev pub DistinctTimes : Delivery → Delivery → Type 0
DistinctTimes a b = a.change.last_event_time ≢ b.change.last_event_time

absorb_swap :
    (u s : String) (v : Option Snapshot) (a b : Delivery)
    → DistinctTimes a b
    → absorb u s (absorb u s v a) b ≡ absorb u s (absorb u s v b) a
unfolding absorb
absorb_swap u s v a b d = ground (arith, merge_swap v (change_of a.change) (change_of b.change) d)

delivered_first :
    (d : Delivery) (ds : List Delivery) (env : Env) (w w' : World)
    → deliver_all (d ∷ ds) env w ≡ (ok tt, w')
    → (b : Bool) × (v : World) × (upsert_entitlement none d.change d.trigger env w ≡ (ok b, v))
      × (deliver_all ds env v ≡ (ok tt, w'))
unfolding deliver_all ◌>>=◌
delivered_first d ds env w w' h = go (upsert_entitlement none d.change d.trigger env w) refl
  where
    go :
        (r : Result Bool × World)
        → upsert_entitlement none d.change d.trigger env w ≡ r
        → (b : Bool) × (v : World) × (upsert_entitlement none d.change d.trigger env w ≡ (ok b, v))
          × (deliver_all ds env v ≡ (ok tt, w'))
    go (ok b, v) e = (b, v, e, ground (arith, e))
    go (err x, v) e = absurd (ground (arith, e))

view-deliver_all :
    (ds : List Delivery) (env : Env) (w w' : World) (u s : String)
    → deliver_all ds env w ≡ (ok tt, w')
    → view u s w'.db ≡ fold (absorb u s) (view u s w.db) ds
unfolding deliver_all absorb pure
view-deliver_all [] env w w' u s h = ground arith
view-deliver_all (d ∷ ds) env w w' u s h =
    let (b, v, first, rest) = delivered_first d ds env w w' h in
    view-deliver_all ds env v w' u s rest
    ∙ ap (λ (x : Option Snapshot). fold (absorb u s) x ds)
        (view-upsert_entitlement none d.change d.trigger env w v b u s first)

Snapshot-set : IsSet (Option Snapshot)
Snapshot-set = hlevel String-set

-- Of two runs over the same deliveries in any two orders, with pairwise distinct event times, from
-- the same tables and with no failure, each leaves every register the same, whatever the clocks.
pub deliver_all_perm :
    (xs ys : List Delivery) (env env' : Env) (w v w' v' : World) (u s : String)
    → Perm xs ys
    → Pairwise DistinctTimes xs
    → w.db ≡ v.db
    → deliver_all xs env w ≡ (ok tt, w')
    → deliver_all ys env' v ≡ (ok tt, v')
    → view u s w'.db ≡ view u s v'.db
deliver_all_perm xs ys env env' w v w' v' u s p d same hx hy =
    view-deliver_all xs env w w' u s hx
    ∙ fold-perm (absorb u s) DistinctTimes (λ a b. ¬_prop) (λ a b n e. n (sym e)) (absorb_swap u s)
        Snapshot-set (view u s w.db) p d
    ∙ ap (λ (db : Db). fold (absorb u s) (view u s db) ys) same
    ∙ sym (view-deliver_all ys env' v v' u s hy)
