-- ===== src/Invariant/Sources.antt =====
-- Each channel writes its own source: the registers of the others stay as they are.
use subscription_reconciler.Base.{String, ◌≡◌, ◌≢◌, refl, ◌∙◌, Option, List, [], ◌∷◌, ==_iff, arith}
use subscription_reconciler.Base.Lists.{find?, update_where}
use subscription_reconciler.Clock.{Time}
use subscription_reconciler.Invariant.Preserves.{Preserves}
use subscription_reconciler.Invariant.Channels.{Channel, source_of, receive, receive-Keeps}
use subscription_reconciler.Invariant.Statements.{Preserves-of}
use subscription_reconciler.Postgres.Client.Upsert.Effect.{upsert_effect}
use subscription_reconciler.Postgres.Client.Upsert.Refinement.{view, view-effect, snapshot_of}
use subscription_reconciler.Postgres.Models.{Db, UserEntitlement}
use subscription_reconciler.Postgres.Queries.CarrierClaims.{is_claimed, polled_at, claim_rows}
use subscription_reconciler.Postgres.Queries.Entitlements.{UpsertEntitlementParams, is_key}
use subscription_reconciler.Postgres.Session.{Env, World}
use mathlib.Core.Option

-- The registers of the sources other than `source` stand as in `before`.
abbrev pub Spares : String → Db → Db → Type 0
Spares source before db = (u s : String) → s ≢ source → view u s db ≡ view u s before

upsert-Spares :
    (source : String) (before : Db) (now : Time) (p : UpsertEntitlementParams)
    (trigger : Option String) (db : Db)
    → p.source ≡ source
    → Spares source before db
    → Spares source before (upsert_effect now p trigger db).1
upsert-Spares source before now p trigger db same h u s other =
    ground (arith, view-effect now p trigger db u s, ==_iff p.source s, h u s other)

claimed_snapshot :
    (due : List UserEntitlement) (now : Time) (u s : String) (rows : List UserEntitlement)
    → Option.map snapshot_of
        (find? (is_key u s) (update_where (is_claimed due) (polled_at now) rows))
      ≡ Option.map snapshot_of (find? (is_key u s) rows)
claimed_snapshot due now u s [] = refl
claimed_snapshot due now u s (r ∷ rows) = ground (arith, claimed_snapshot due now u s rows)

-- Marking rows as polled changes no register.
view-claim_rows :
    (due : List UserEntitlement) (now : Time) (db : Db) (u s : String)
    → view u s (claim_rows now db due).1 ≡ view u s db
unfolding view
view-claim_rows due now db u s = claimed_snapshot due now u s db.user_entitlements

same-Spares :
    (source : String) (before db db' : Db)
    → db'.user_entitlements ≡ db.user_entitlements
    → Spares source before db
    → Spares source before db'
unfolding view
same-Spares source before db db' rows h u s other = rw rows (h u s other)

Preserves-Spares : (source : String) (before : Db) → Preserves (Spares source before) source
Preserves-Spares source before =
    Preserves-of (λ db db' rows logs h. same-Spares source before db db' rows h) source
      (λ now p trigger db same h. upsert-Spares source before now p trigger db same h)
      (λ due now db h u s other. view-claim_rows due now db u s ∙ h u s other)

-- Whatever fails and wherever it stops, a delivery leaves the registers of the sources other than
-- STORE as they were, a batch of revocations those other than MARKETPLACE, and a polling batch
-- those other than CARRIER.
pub view-receive :
    (c : Channel) (env : Env) (w : World) (u s : String)
    → s ≢ source_of c
    → view u s (receive c env w).db ≡ view u s w.db
view-receive c env w u s other =
    receive-Keeps c (Preserves-Spares (source_of c) w.db) env w (λ u s o. refl) u s other
