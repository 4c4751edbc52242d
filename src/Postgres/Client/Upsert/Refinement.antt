-- ===== src/Postgres/Client/Upsert/Refinement.antt =====
-- The projection of `UpsertEntitlement` refines the latest-event register.
use subscription_reconciler.Base.{
  String, ◌≡◌, refl, sym, ap, ◌∙◌, Bool, false, Option, some, ◌&&◌, ◌==◌, ==_iff, if◌then◌else◌,
  arith,
}
use subscription_reconciler.Base.Int.{◌≤ℤ◌}
use subscription_reconciler.Clock.{Time, timestamptz}
use subscription_reconciler.Postgres.Client.Upsert.{upsert_entitlement}
use subscription_reconciler.Postgres.Client.Upsert.Effect.{
  upsert_effect, upsert_entitlement-effect, call_time,
}
use subscription_reconciler.Postgres.Session.{Env, World, ok, Queries}
use subscription_reconciler.Postgres.Models.{Db, UserEntitlement}
use subscription_reconciler.Postgres.Queries.Entitlements.{
  UpsertEntitlementParams, find_entitlement, overwrite,
}
use subscription_reconciler.Postgres.Queries.Entitlements.Lookup.{find?-update_where}
use subscription_reconciler.Spec.Register.{Snapshot, merge}
use mathlib.Core.Option

abbrev pub snapshot_of : UserEntitlement → Snapshot
snapshot_of r = record {
  active = r.active;
  expires_at = r.expires_at;
  reason = r.reason;
  time = r.last_event_time;
}

abbrev pub change_of : UpsertEntitlementParams → Snapshot
change_of p = record {
  active = p.active;
  expires_at = Option.map timestamptz p.expires_at;
  reason = p.reason;
  time = p.last_event_time;
}

-- The register of a user and a source.
unfoldable pub view : String → String → Db → Option Snapshot
view user source db = Option.map snapshot_of (find_entitlement user source db)

pub view-effect :
    (now : Time) (p : UpsertEntitlementParams) (trigger : Option String) (db : Db) (u s : String)
    → view u s (upsert_effect now p trigger db).1
      ≡ (if p.user_id == u && p.source == s then merge (view u s db) (change_of p) else view u s db)
unfolding view upsert_effect merge
view-effect now p trigger db u s = ground (
  arith,
  ==_iff p.user_id u,
  ==_iff p.source s,
  find?-update_where (overwrite now p) (λ r. refl) (λ r. refl) p.user_id p.source u s
      db.user_entitlements,
)

-- A call that returns has merged its change into the register of its user and source, and left
-- every other register alone.
pub view-upsert_entitlement :
    (c : Queries) (p : UpsertEntitlementParams) (trigger : Option String) (env : Env) (w w' : World)
    (b : Bool) (u s : String)
    → upsert_entitlement c p trigger env w ≡ (ok b, w')
    → view u s w'.db ≡ (
        if p.user_id == u && p.source == s
        then merge (view u s w.db) (change_of p)
        else view u s w.db)
view-upsert_entitlement c p trigger env w w' b u s h =
    ap (λ (r : Bool × Db). view u s r.1) (sym (upsert_entitlement-effect c p trigger env w w' b h))
    ∙ view-effect (call_time c env w) p trigger w.db u s

-- An event that is no newer than the row of its user and source changes no table at all.
pub upsert_entitlement_stale :
    (c : Queries) (p : UpsertEntitlementParams) (trigger : Option String) (env : Env) (w w' : World)
    (b : Bool) (r : UserEntitlement)
    → find_entitlement p.user_id p.source w.db ≡ some r
    → p.last_event_time ≤ℤ r.last_event_time
    → upsert_entitlement c p trigger env w ≡ (ok b, w')
    → (b ≡ false) × (w'.db ≡ w.db)
unfolding upsert_effect
upsert_entitlement_stale c p trigger env w w' b r found older h =
    ground (arith, upsert_entitlement-effect c p trigger env w w' b h)
