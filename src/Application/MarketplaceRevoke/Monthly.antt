-- ===== src/Application/MarketplaceRevoke/Monthly.antt =====
-- A user is revoked once a month (README.md, "Idempotency").
use subscription_reconciler.Application.MarketplaceRevoke.{
  revocation_change, apply_revocation, ingest_revocation, revoke_user,
}
use subscription_reconciler.Base.{
  ℕ, ◌+◌, String, ◌≡◌, refl, sym, ap, subst, ◌∙◌, Bool, true, false, Option, none, some, ◌∷◌, ◌||◌,
  ◌==◌, ==_iff, if◌then◌else◌, arith,
}
use subscription_reconciler.Base.Lists.{any}
use subscription_reconciler.Clock.{Time}
use subscription_reconciler.Postgres.Client.Events.{
  with_marketplace_revocation_transaction, insert_marketplace_revocation, mark_event_processed,
}
use subscription_reconciler.Postgres.Client.Upsert.{upsert_entitlement}
use subscription_reconciler.Postgres.Client.Upsert.Effect.{
  upsert_effect, upsert_entitlement_in-Implements,
}
use subscription_reconciler.Postgres.Models.{Db}
use subscription_reconciler.Postgres.Queries.Events
use subscription_reconciler.Postgres.Queries.Events.{
  has_revocation, fresh_revocation, is_mark, fresh_mark,
}
use subscription_reconciler.Postgres.Session.{
  Env, World, Result, ok, err, Action, Queries, pure, ◌>>=◌, ◌>>◌, wrap, begin, commit, ctx_err,
  atomically, rollback_on_error, answer, statement,
}
use subscription_reconciler.Postgres.Session.Implements.{
  Implements, Implements-bind, Implements-if, Implements-pure, Implements-wrap, Implements-ctx_err,
  Implements-commit, Implements-eq, bind-ran, wrapped,
}

abbrev revoked : Time → String → String → Db → Db
revoked now event user db = record db {
  marketplace_revocations =
      fresh_revocation db.next_revocation now event user ∷ db.marketplace_revocations;
  next_revocation = db.next_revocation + 1;
}

abbrev marked : Time → String → Db → Db
marked now event db =
    if any (is_mark event "MARKETPLACE") db.processed_events
    then db
    else record db { processed_events = fresh_mark now event "MARKETPLACE" ∷ db.processed_events }

-- One user's transaction as a function on the tables.
unfoldable pub revoke_effect : Time → String → String → Time → Db → Bool × Db
revoke_effect now event user batch_time db = if has_revocation event db then (false, db) else (
  true,
  marked now event
      (upsert_effect now (revocation_change user batch_time) (some event)
        (revoked now event user db)).1,
)

insert-Implements :
    (now : Time) (event user : String)
    → Implements
        (insert_marketplace_revocation (some now) event user)
        (λ db. if has_revocation event db then (false, db) else (true, revoked now event user db))
unfolding insert_marketplace_revocation Events.insert_marketplace_revocation ◌>>=◌ statement pure
insert-Implements now event user = record { at = λ env w w' a h. ground arith }

mark-Implements :
    (now : Time) (event : String)
    → Implements
        (mark_event_processed (some now) event "MARKETPLACE")
        (λ db. (tt, marked now event db))
unfolding mark_event_processed Events.mark_event_processed statement ◌==◌
mark-Implements now event = record { at = λ env w w' a h. ground arith }

apply-Implements :
    (now : Time) (event user : String) (batch_time : Time)
    → Implements (apply_revocation event user batch_time (some now)) (λ db. (
      tt,
      marked now event (upsert_effect now (revocation_change user batch_time) (some event) db).1,
    ))
unfolding apply_revocation upsert_entitlement
apply-Implements now event user batch_time =
    Implements-bind (λ db. (tt, db)) _ Implements-ctx_err
      λ u.
        Implements-bind (upsert_effect now (revocation_change user batch_time) (some event)) _
          (Implements-wrap _
            (upsert_entitlement_in-Implements now (revocation_change user batch_time) (some event)))
          λ changed.
            Implements-bind (λ db. (tt, db)) _ Implements-ctx_err
              λ u. Implements-wrap _ (mark-Implements now event)

ingest-Implements :
    (now : Time) (event user : String) (batch_time : Time)
    → Implements
        (ingest_revocation event user batch_time (some now))
        (revoke_effect now event user batch_time)
unfolding ingest_revocation revoke_effect
ingest-Implements now event user batch_time =
    Implements-eq _ _ _
      (Implements-bind (λ db. (tt, db)) _ Implements-ctx_err
        λ u.
          Implements-bind
            (λ db.
              if has_revocation event db then (false, db) else (true, revoked now event user db))
            (λ inserted db.
              if inserted
              then (
                true,
                marked now event
                    (upsert_effect now (revocation_change user batch_time) (some event) db).1,
              )
              else (false, db))
            (Implements-wrap _ (insert-Implements now event user))
            (λ inserted.
              Implements-if inserted
                (λ db. (
                  true,
                  marked now event
                      (upsert_effect now (revocation_change user batch_time) (some event) db).1,
                ))
                (λ db. (false, db))
                (Implements-bind _ (λ u db. (true, db)) (apply-Implements now event user batch_time)
                  (λ u. Implements-pure true))
                (Implements-pure false)))
      (λ db. ground arith)

committed :
    {A : Type 0} (db : Db) (r : Result A × World) (a : A) (w' : World)
    → rollback_on_error db r ≡ (ok a, w')
    → r ≡ (ok a, w')
committed db (ok x, v) a w' h = h
committed db (err e, v) a w' h = cc

began :
    (o : Option ℕ) (t : Time) (w v : World) (q : Queries)
    → answer o (some t) w ≡ (ok q, v)
    → (some t ≡ q) × (w.db ≡ v.db)
began none t w v q h = (ground (arith, h), ground (arith, h))
began (some n) t w v q h = (cc, cc)

abbrev transaction_rest : String → String → Time → Queries → Action Bool
transaction_rest event user batch_time tx = do
  inserted ← ingest_revocation event user batch_time tx
  wrap "marketplace revocation transaction context" ctx_err
  wrap "commit marketplace revocation transaction" commit
  pure inserted

rest-Implements :
    (now : Time) (event user : String) (batch_time : Time)
    → Implements
        (transaction_rest event user batch_time (some now))
        (revoke_effect now event user batch_time)
rest-Implements now event user batch_time =
    Implements-eq _ _ _
      (Implements-bind (revoke_effect now event user batch_time) (λ b db. (b, db))
        (ingest-Implements now event user batch_time)
        λ b.
          Implements-bind (λ db. (tt, db)) _ (Implements-wrap _ Implements-ctx_err)
            λ u.
              Implements-bind (λ db. (tt, db)) _ (Implements-wrap _ Implements-commit)
                λ u. Implements-pure b)
      (λ db. refl)

-- A call for one user that returns did what `revoke_effect` says, at the NOW() of its transaction.
pub revoke_user-ran :
    (event user : String) (batch_time : Time) (env : Env) (w w' : World) (b : Bool)
    → revoke_user event user batch_time env w ≡ (ok b, w')
    → (now : Time) × (revoke_effect now event user batch_time w.db ≡ (b, w'.db))
unfolding revoke_user with_marketplace_revocation_transaction atomically begin wrap
revoke_user-ran event user batch_time env w w' b h =
    let (u, v, passed, ran) =
      bind-ran (wrap "marketplace revoke canceled" ctx_err)
        (λ u.
          wrap "process marketplace revocation"
            (with_marketplace_revocation_transaction (ingest_revocation event user batch_time)))
        env w w' b h in
    let same =
      (Implements-wrap "marketplace revoke canceled" Implements-ctx_err).at env w v tt passed in
    let inside = committed v.db _ b w' (wrapped _ _ b w' ran) in
    let (tx, v1, started, rest) =
      bind-ran (wrap "begin marketplace revocation transaction" begin)
        (transaction_rest event user batch_time) env v w' b inside in
    let (begun, kept) =
      began (env.fault v.tick) (env.db_clock v.tick) v v1 tx (wrapped _ _ tx v1 started) in
    let done : transaction_rest event user batch_time (some (env.db_clock v.tick)) env v1
        ≡ (ok b, w') =
      subst (λ (q : Queries). transaction_rest event user batch_time q env v1 ≡ (ok b, w'))
        (sym begun) rest in
    (
      env.db_clock v.tick,
      ap (revoke_effect (env.db_clock v.tick) event user batch_time)
            (ap (λ (x : Unit {0} × Db). x.1) same ∙ kept)
          ∙ (rest-Implements (env.db_clock v.tick) event user batch_time).at env v1 w' b done,
    )

-- The record of a revocation stays.
revocations-upsert_effect :
    (now : Time) (user : String) (batch_time : Time) (trigger : Option String) (db : Db)
    → (upsert_effect now (revocation_change user batch_time) trigger db).1.marketplace_revocations
      ≡ db.marketplace_revocations
unfolding upsert_effect
revocations-upsert_effect now user batch_time trigger db = ground arith

pub recorded_after :
    (now : Time) (event user : String) (batch_time : Time) (db : Db) (other : String)
    → has_revocation other (revoke_effect now event user batch_time db).1
      ≡ (event == other || has_revocation other db)
unfolding revoke_effect
recorded_after now event user batch_time db other = ground (
  arith,
  revocations-upsert_effect now user batch_time (some event) (revoked now event user db),
  ==_iff event other,
)

pub repeat_unchanged :
    (now : Time) (event user : String) (batch_time : Time) (db : Db)
    → has_revocation event db ≡ true
    → revoke_effect now event user batch_time db ≡ (false, db)
unfolding revoke_effect
repeat_unchanged now event user batch_time db h = rw h
