-- ===== src/Postgres/Client/Upsert/Success.antt =====
-- Where nothing fails, `UpsertEntitlement` on one of the three sources returns.
use subscription_reconciler.Base.{
  String, ◌≡◌, refl, true, Option, none, some, arith, eqb, Option-cases, inl, inr,
}
use subscription_reconciler.Clock.{Time}
use subscription_reconciler.Postgres.Client.Upsert.{
  upsert_entitlement, upsert_entitlement_in, optional, write_projection, is_state_changed,
  transition,
}
use subscription_reconciler.Postgres.Models.{Db}
use subscription_reconciler.Postgres.Queries.AuditLogs.{InsertAuditLogParams, insert_audit_log}
use subscription_reconciler.Postgres.Queries.Entitlements.{
  UpsertEntitlementParams, upsert_entitlement as upsert_row, get_entitlement_by_user_and_source,
  is_source, find_entitlement,
}
use subscription_reconciler.Postgres.Session.{Env, Queries, statement, next}
use subscription_reconciler.Postgres.Session.Succeeds.{
  IsQuiet, is_ok, Succeeds, Succeeds-pure, Succeeds-bind, Succeeds-if, Succeeds-statement,
  Succeeds-in_transaction,
}
use subscription_reconciler.Postgres.Types.{Entitlement}

upsert_row_total :
    (p : UpsertEntitlementParams)
    → is_source p.source ≡ true
    → (now : Time) (db : Db) → is_ok (upsert_row p now db) ≡ true
unfolding upsert_row
upsert_row_total p known now db = rw known

audit_total :
    (l : InsertAuditLogParams)
    → is_source l.source ≡ true
    → (now : Time) (db : Db) → is_ok (insert_audit_log l now db) ≡ true
unfolding insert_audit_log
audit_total l known now db = rw known

module _ {env : Env} (quiet : IsQuiet env) where
  read_row-Succeeds :
      (q : Queries) (user source : String)
      → Succeeds env (optional (statement q (get_entitlement_by_user_and_source user source)))
  unfolding optional statement get_entitlement_by_user_and_source
  read_row-Succeeds q user source = record {
    at = λ w. (
      find_entitlement user source w.db,
      next w,
      elim (Option-cases (find_entitlement user source w.db)) [
        | inl e ↦ ground (arith, quiet.no_fault w.tick)
        | inr (r, e) ↦ ground (arith, quiet.no_fault w.tick)
      ],
    );
  }

  write-Succeeds :
      (q : Queries) (existing : Option Entitlement) (p : UpsertEntitlementParams)
      (trigger : Option String)
      → is_source p.source ≡ true
      → Succeeds env (write_projection q existing p trigger)
  unfolding write_projection
  write-Succeeds q existing p trigger known =
      Succeeds-bind _ _ (Succeeds-statement quiet q _ (upsert_row_total p known)) λ n.
        Succeeds-if (eqb n 0) _ _ (Succeeds-pure _) (
          Succeeds-if (is_state_changed existing p) _ _
            (Succeeds-bind _ _
              (Succeeds-statement quiet q _ (audit_total (transition existing p trigger) known))
              (λ u. Succeeds-pure _))
            (Succeeds-pure _))

  upsert_entitlement_in-Succeeds :
      (q : Queries) (p : UpsertEntitlementParams) (trigger : Option String)
      → is_source p.source ≡ true
      → Succeeds env (upsert_entitlement_in q p trigger)
  unfolding upsert_entitlement_in
  upsert_entitlement_in-Succeeds q p trigger known =
      Succeeds-bind _ _ (Succeeds-statement quiet q _ (λ now db. refl)) λ u.
        Succeeds-bind _ _ (read_row-Succeeds q p.user_id p.source)
          λ row. Succeeds-if _ _ _ (Succeeds-pure _) (write-Succeeds q _ p trigger known)

  pub upsert_entitlement-Succeeds :
      (c : Queries) (p : UpsertEntitlementParams) (trigger : Option String)
      → is_source p.source ≡ true
      → Succeeds env (upsert_entitlement c p trigger)
  unfolding upsert_entitlement
  upsert_entitlement-Succeeds (some t) p trigger known =
      upsert_entitlement_in-Succeeds (some t) p trigger known
  upsert_entitlement-Succeeds none p trigger known =
      Succeeds-in_transaction quiet _ (λ q. upsert_entitlement_in-Succeeds q p trigger known)
