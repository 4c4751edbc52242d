-- ===== src/System/Claims.antt =====
-- What a claim of due notifications keeps.
use subscription_reconciler.Base.{◌≡◌, refl, subst, List, arith}
use subscription_reconciler.Base.Int.{ℤ, pos, leb_ℤ}
use subscription_reconciler.Clock.{Time}
use subscription_reconciler.Audit.Services.{IsTruthful-same}
use subscription_reconciler.Postgres.Client.Notifications.{claim_due_notifications, claim_batch}
use subscription_reconciler.Postgres.Models.{Db, Notification}
use subscription_reconciler.Postgres.Queries.Limits.{with_rows}
use subscription_reconciler.Postgres.Queries.Notifications
use subscription_reconciler.Postgres.Queries.Notifications.{claim_rows, is_claimed}
use subscription_reconciler.Postgres.Queries.Notifications.Daily.{IsDaily-sent}
use subscription_reconciler.Postgres.Session.{Result, ok, err}
use subscription_reconciler.Postgres.Session.Keeps.{
  Keeps, Keeps-bind, Keeps-if, Keeps-pure, Keeps-statement, Keeps-locked_notifications,
}
use subscription_reconciler.Postgres.Session.Transaction.{Keeps-in_transaction}
use subscription_reconciler.System.Sweep.{IsSound}

claimed-Keeps :
    (P : Db → Type 0) (now : Time) (r : Result (List Notification)) (db db' : Db)
    (a : List Notification)
    → ((due : List Notification) → P (claim_rows now db due).1)
    → with_rows r (λ due. ok (claim_rows now db due)) ≡ ok (a, db')
    → P db'
claimed-Keeps P now (ok due) db db' a k e =
    let same : (claim_rows now db due).1 ≡ db' = ground (arith, e) in subst P same (k due)
claimed-Keeps P now (err x) db db' a k e = cc

-- A claim keeps what marking notifications as sent keeps.
Keeps-claim :
    {P : Db → Type 0}
    → ((due : List Notification) (now : Time) (db : Db) → P db → P (claim_rows now db due).1)
    → (limit : ℤ) → Keeps P (claim_due_notifications limit)
unfolding claim_due_notifications claim_batch Notifications.claim_due_notifications
Keeps-claim {P} k limit = Keeps-if (leb_ℤ limit (pos 0)) _ _ (Keeps-pure _) (
    Keeps-in_transaction _ λ q. Keeps-bind _ _ Keeps-locked_notifications λ locked.
      Keeps-bind _ _
        (Keeps-statement q _
          (λ now db db' a e h. claimed-Keeps P now _ db db' a (λ due. k due now db h) e))
        λ rows. Keeps-pure _)

-- In particular what does not depend on the notifications.
pub Keeps-claim_due_notifications :
    {P : Db → Type 0}
    → ((db : Db) (ns : List Notification) → P db → P (record db { notifications = ns }))
    → (limit : ℤ) → Keeps P (claim_due_notifications limit)
Keeps-claim_due_notifications {P} k = Keeps-claim {P = P} (λ due now db h. k db _ h)

pub claim_due_notifications-IsSound : (limit : ℤ) → Keeps IsSound (claim_due_notifications limit)
claim_due_notifications-IsSound = Keeps-claim {P = IsSound} λ due now db (keyed, (truthful, daily)).
    (
      keyed,
      (
        IsTruthful-same db (claim_rows now db due).1 refl refl truthful,
        IsDaily-sent (is_claimed due) now db.notifications daily,
      ),
    )
