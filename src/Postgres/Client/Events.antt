-- ===== src/Postgres/Client/Events.antt =====
-- internal/infrastructure/postgres/client.go: the events, their marks, and the two transactions
-- that ingest them.
use subscription_reconciler.Base.{String, Bool, List, map, ltb}
use subscription_reconciler.Postgres.Models.{MarketplaceRevocation, ProcessedEvent}
use subscription_reconciler.Postgres.Queries.Events
use subscription_reconciler.Postgres.Queries.Events.{InsertStoreEventParams}
use subscription_reconciler.Postgres.Session.{
  Action, Queries, pure, ◌>>=◌, ◌>>◌, statement, exec, query, atomically, in_transaction, begin,
  commit, ctx_err, wrap,
}
use subscription_reconciler.Postgres.Types.{StoreEvent, store_event_from_gen}

unfoldable pub with_store_webhook_transaction : {A : Type 0} → (Queries → Action A) → Action A
with_store_webhook_transaction fn = in_transaction fn

unfoldable pub insert_store_event : Queries → InsertStoreEventParams → Action Bool
insert_store_event c p = do rows ← statement c (Events.insert_store_event p); pure (ltb 0 rows)

unfoldable pub get_store_events_by_user : Queries → String → Action (List StoreEvent)
get_store_events_by_user c user = do
  rows ← query c (Events.get_store_events_by_user user)
  pure (map store_event_from_gen rows)

unfoldable pub get_store_event_by_id : Queries → String → Action StoreEvent
get_store_event_by_id c event = do
  row ← statement c (Events.get_store_event_by_id event)
  pure (store_event_from_gen row)

unfoldable pub with_marketplace_revocation_transaction :
    {A : Type 0} → (Queries → Action A) → Action A
with_marketplace_revocation_transaction fn = atomically do
  tx ← wrap "begin marketplace revocation transaction" begin
  a ← fn tx
  wrap "marketplace revocation transaction context" ctx_err
  wrap "commit marketplace revocation transaction" commit
  pure a

unfoldable pub insert_marketplace_revocation : Queries → String → String → Action Bool
insert_marketplace_revocation c event user = do
  rows ← exec c (Events.insert_marketplace_revocation event user)
  pure (ltb 0 rows)

unfoldable pub get_marketplace_revocation_by_event_id :
    Queries → String → Action MarketplaceRevocation
get_marketplace_revocation_by_event_id c event =
    statement c (Events.get_marketplace_revocation_by_event_id event)

unfoldable pub is_event_processed : Queries → String → String → Action Bool
is_event_processed c event source = query c (Events.is_event_processed event source)

unfoldable pub mark_event_processed : Queries → String → String → Action (Unit {0})
mark_event_processed c event source = statement c (Events.mark_event_processed event source)

unfoldable pub get_processed_event : Queries → String → String → Action ProcessedEvent
get_processed_event c event source = statement c (Events.get_processed_event event source)
