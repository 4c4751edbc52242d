-- ===== src/Postgres/Client/Upsert/Internal.antt =====
-- The errors of `UpsertEntitlement` are never domain errors.
use subscription_reconciler.Base.{
  String, refl, none, some, Option, eqb, Bool-cases, inl, inr, Option-cases,
}
use subscription_reconciler.Clock.{Time}
use subscription_reconciler.Domain.Error.{as_domain, domain, driver, violation, no_rows, wrapped}
use subscription_reconciler.Postgres.Client.Upsert.{
  upsert_entitlement, upsert_entitlement_in, optional, optional_result, write_projection,
  is_state_changed, transition,
}
use subscription_reconciler.Postgres.Models.{Db}
use subscription_reconciler.Postgres.Queries.AuditLogs.{InsertAuditLogParams, insert_audit_log}
use subscription_reconciler.Postgres.Queries.Entitlements.{
  UpsertEntitlementParams, upsert_entitlement as upsert_row, get_entitlement_by_user_and_source,
  is_source, find_entitlement,
}
use subscription_reconciler.Postgres.Session.{World, Result, ok, err, Queries, Action}
use subscription_reconciler.Postgres.Session.Internal.{
  IsInternal, IsInternalResult, IsInternal-pure, IsInternal-bind, IsInternal-if,
  IsInternal-statement, IsInternal-in_transaction,
}
use subscription_reconciler.Postgres.Types.{Entitlement}

insert-IsInternal :
    (l : InsertAuditLogParams) (now : Time) (db : Db) → IsInternalResult (insert_audit_log l now db)
unfolding insert_audit_log as_domain
insert-IsInternal l now db = elim (Bool-cases (is_source l.source)) [
  | inl e ↦ rw e tt
  | inr e ↦ rw e refl
]

upsert_row-IsInternal :
    (p : UpsertEntitlementParams) (now : Time) (db : Db) → IsInternalResult (upsert_row p now db)
unfolding upsert_row as_domain
upsert_row-IsInternal p now db = elim (Bool-cases (is_source p.source)) [
  | inl e ↦ rw e tt
  | inr e ↦ rw e refl
]

find-IsInternal :
    (user source : String) (now : Time) (db : Db)
    → IsInternalResult (get_entitlement_by_user_and_source user source now db)
unfolding get_entitlement_by_user_and_source as_domain
find-IsInternal user source now db = elim (Option-cases (find_entitlement user source db)) [
  | inl e ↦ rw e refl
  | inr (r, e) ↦ rw e tt
]

optional_result-IsInternal :
    {A : Type 0} (r : Result A × World)
    → IsInternalResult r.0
    → IsInternalResult (optional_result r).0
unfolding as_domain
optional_result-IsInternal (ok a, w) h = tt
optional_result-IsInternal (err no_rows, w) h = tt
optional_result-IsInternal (err (domain e), w) h = h
optional_result-IsInternal (err (driver n), w) h = h
optional_result-IsInternal (err violation, w) h = h
optional_result-IsInternal (err (wrapped text e), w) h = h

optional-IsInternal : {A : Type 0} (m : Action A) → IsInternal m → IsInternal (optional m)
unfolding optional
optional-IsInternal m im = record {
  at = λ env w. optional_result-IsInternal (m env w) (im.at env w);
}

write-IsInternal :
    (q : Queries) (existing : Option Entitlement) (p : UpsertEntitlementParams)
    (trigger : Option String)
    → IsInternal (write_projection q existing p trigger)
unfolding write_projection
write-IsInternal q existing p trigger =
    IsInternal-bind _ _ (IsInternal-statement q _ (upsert_row-IsInternal p)) λ n.
      IsInternal-if (eqb n 0) _ _ (IsInternal-pure _) (
        IsInternal-if (is_state_changed existing p) _ _
          (IsInternal-bind _ _
            (IsInternal-statement q _ (insert-IsInternal (transition existing p trigger)))
            (λ u. IsInternal-pure _))
          (IsInternal-pure _))

upsert_entitlement_in-IsInternal :
    (q : Queries) (p : UpsertEntitlementParams) (trigger : Option String)
    → IsInternal (upsert_entitlement_in q p trigger)
unfolding upsert_entitlement_in
upsert_entitlement_in-IsInternal q p trigger =
    IsInternal-bind _ _ (IsInternal-statement q _ (λ now db. tt)) λ u.
      IsInternal-bind _ _
        (optional-IsInternal _ (IsInternal-statement q _ (find-IsInternal p.user_id p.source)))
        λ row. IsInternal-if _ _ _ (IsInternal-pure _) (write-IsInternal q _ p trigger)

pub upsert_entitlement-IsInternal :
    (c : Queries) (p : UpsertEntitlementParams) (trigger : Option String)
    → IsInternal (upsert_entitlement c p trigger)
unfolding upsert_entitlement
upsert_entitlement-IsInternal (some t) p trigger =
    upsert_entitlement_in-IsInternal (some t) p trigger
upsert_entitlement-IsInternal none p trigger =
    IsInternal-in_transaction _ (λ q. upsert_entitlement_in-IsInternal q p trigger)
