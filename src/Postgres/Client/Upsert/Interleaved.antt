-- ===== src/Postgres/Client/Upsert/Interleaved.antt =====
-- `UpsertEntitlement` while other transactions commit between its read and its write. Under READ
-- COMMITTED each statement sees what has been committed before it; the advisory lock holds off
-- other calls for the user, and neither the expiration sweep nor the carrier claim takes it.
use subscription_reconciler.Base.{
  String, ◌≡◌, refl, sym, ap, ◌∙◌, Bool, true, false, Option, none, some, ◌&&◌, ◌==◌, ==_iff,
  if◌then◌else◌, arith,
}
use subscription_reconciler.Base.Int.{ltb_ℤ, ◌≤ℤ◌}
use subscription_reconciler.Clock.{Time}
use subscription_reconciler.Postgres.Client.Upsert.{
  after_read, is_state_changed, is_not_newer, transition, lock_entitlement_user, optional,
  write_projection, upsert_entitlement_in,
}
use subscription_reconciler.Postgres.Client.Upsert.Effect.{logged, inserted, overwritten}
use subscription_reconciler.Postgres.Client.Upsert.Refinement.{view, change_of}
use subscription_reconciler.Postgres.Models.{Db, UserEntitlement}
use subscription_reconciler.Postgres.Queries.AuditLogs.{insert_audit_log}
use subscription_reconciler.Postgres.Queries.Entitlements.{
  UpsertEntitlementParams, find_entitlement, overwrite, get_entitlement_by_user_and_source,
  upsert_entitlement as upsert_row,
}
use subscription_reconciler.Postgres.Queries.Entitlements.Lookup.{find?-update_where}
use subscription_reconciler.Postgres.Session.{
  Env, World, ok, Action, Queries, ◌>>=◌, ◌>>◌, statement,
}
use subscription_reconciler.Postgres.Session.Implements.{Implements}
use subscription_reconciler.Postgres.Types.{Entitlement, entitlement_from_gen}
use subscription_reconciler.Spec.Register.{merge}
use mathlib.Core.Option

-- What other transactions commit meanwhile, as a function on the tables.
unfoldable pub meanwhile : (Db → Db) → Action (Unit {0})
meanwhile others env w = (ok tt, record w { db = others w.db })

-- `upsertEntitlement`, with the commits of others after its read.
unfoldable pub interleaved_upsert :
    (Db → Db) → Queries → UpsertEntitlementParams → Option String → Action Bool
unfolding meanwhile lock_entitlement_user optional write_projection
interleaved_upsert others q p trigger = do
  lock_entitlement_user q p.user_id
  row ← optional (statement q (get_entitlement_by_user_and_source p.user_id p.source))
  meanwhile others
  after_read q p trigger row

-- Where nobody commits meanwhile, that is the call itself.
interleaved_upsert-alone :
    (q : Queries) (p : UpsertEntitlementParams) (trigger : Option String) (env : Env) (w : World)
    → interleaved_upsert (λ db. db) q p trigger env w ≡ upsert_entitlement_in q p trigger env w
unfolding interleaved_upsert upsert_entitlement_in ◌>>=◌
interleaved_upsert-alone q p trigger env w = refl

abbrev audited :
    Option Entitlement → Time → UpsertEntitlementParams → Option String → Db → Bool × Db
audited existing now p trigger db =
    if is_state_changed existing p
    then (true, logged now (transition existing p trigger) db)
    else (false, db)

abbrev pub guarded :
    Option UserEntitlement
    → Option Entitlement
    → Time
    → UpsertEntitlementParams
    → Option String
    → Db
    → Bool × Db
guarded none existing now p trigger db = audited existing now p trigger (inserted now p db)
guarded (some r) existing now p trigger db =
    if ltb_ℤ r.last_event_time p.last_event_time
    then audited existing now p trigger (overwritten now p db)
    else (false, db)

-- The writes of a call that has read `row`.
unfoldable pub write_effect :
    Option UserEntitlement → Time → UpsertEntitlementParams → Option String → Db → Bool × Db
write_effect row now p trigger db =
    let existing = Option.map entitlement_from_gen row in
    if is_not_newer existing p.last_event_time
    then (false, db)
    else guarded (find_entitlement p.user_id p.source db) existing now p trigger db

pub interleaved_upsert-Implements :
    (others : Db → Db) (now : Time) (p : UpsertEntitlementParams) (trigger : Option String)
    → Implements
        (interleaved_upsert others (some now) p trigger)
        (λ db. write_effect (find_entitlement p.user_id p.source db) now p trigger (others db))
unfolding interleaved_upsert write_effect ◌>>=◌ statement upsert_row insert_audit_log
    get_entitlement_by_user_and_source
interleaved_upsert-Implements others now p trigger = record { at = λ env w w' a h. ground arith }

abbrev pub Rises : Option UserEntitlement → Option UserEntitlement → Type 0
Rises none after = Unit {0}
Rises (some r) none = ⊥
Rises (some r) (some s) = r.last_event_time ≤ℤ s.last_event_time

view-write_effect :
    (now : Time) (p : UpsertEntitlementParams) (trigger : Option String) (db : Db)
    (row : Option UserEntitlement) (u s : String)
    → Rises row (find_entitlement p.user_id p.source db)
    → view u s (write_effect row now p trigger db).1
      ≡ (if p.user_id == u && p.source == s then merge (view u s db) (change_of p) else view u s db)
unfolding view write_effect merge
view-write_effect now p trigger db none u s rises = ground (
  arith,
  ==_iff p.user_id u,
  ==_iff p.source s,
  find?-update_where (overwrite now p) (λ r. refl) (λ r. refl) p.user_id p.source u s
      db.user_entitlements,
)
view-write_effect now p trigger db (some r) u s rises = ground (
  arith,
  ==_iff p.user_id u,
  ==_iff p.source s,
  find?-update_where (overwrite now p) (λ r. refl) (λ r. refl) p.user_id p.source u s
      db.user_entitlements,
)

-- A call inside a transaction that returns, whatever others have committed between its read and its
-- write, has merged its change into the register of its user and source as that register stands at
-- the write, and has left every other alone, if they have not put its event time back.
pub view-interleaved_upsert :
    (others : Db → Db) (now : Time) (p : UpsertEntitlementParams) (trigger : Option String)
    (env : Env) (w w' : World) (b : Bool) (u s : String)
    → Rises
        (find_entitlement p.user_id p.source w.db)
        (find_entitlement p.user_id p.source (others w.db))
    → interleaved_upsert others (some now) p trigger env w ≡ (ok b, w')
    → view u s w'.db ≡ (
        if p.user_id == u && p.source == s
        then merge (view u s (others w.db)) (change_of p)
        else view u s (others w.db))
view-interleaved_upsert others now p trigger env w w' b u s rises h =
    ap (λ (r : Bool × Db). view u s r.1)
      (sym ((interleaved_upsert-Implements others now p trigger).at env w w' b h))
    ∙ view-write_effect now p trigger (others w.db) _ u s rises
