-- ===== src/Application/Timeline/Page.antt =====
-- A page of the timeline.
use subscription_reconciler.Application.Timeline.{
  get_entitlement_timeline, clamp_limit, clamp_offset, timeline_entry, timeline_of,
}
use subscription_reconciler.Base.{
  ℕ, zero, suc, ◌≤◌, String, ◌≡◌, sym, ap, subst, ◌∙◌, none, List, [], ◌∷◌, map, arith,
}
use subscription_reconciler.Base.Int.{ℤ, pos, negsuc, pos_part}
use subscription_reconciler.Base.Lists.{length, take, drop}
use subscription_reconciler.Domain.Timeline.{TimelineEntry, TimelineResponse}
use subscription_reconciler.Postgres.Client.AuditLogs.{
  get_audit_logs_by_user, count_audit_logs_by_user,
}
use subscription_reconciler.Postgres.Models.{Db, AuditLog}
use subscription_reconciler.Postgres.Queries.AuditLogs
use subscription_reconciler.Postgres.Queries.AuditLogs.{logs_of, newest_first}
use subscription_reconciler.Postgres.Queries.Limits.{limit_rows, offset_rows}
use subscription_reconciler.Postgres.Session.{Env, World, ok, pure, ◌>>=◌, statement}
use subscription_reconciler.Postgres.Session.Implements.{bind-ran}
use subscription_reconciler.Postgres.Types
use subscription_reconciler.Postgres.Types.{audit_log_from_gen}

clamp_limit_pos : (limit : ℤ) → (n : ℕ) × (clamp_limit limit ≡ pos n) × (1 ≤ n) × (n ≤ 1_000)
unfolding clamp_limit
clamp_limit_pos limit = (pos_part (clamp_limit limit), ground arith, ground arith, ground arith)

clamp_offset_pos : (offset : ℤ) → (n : ℕ) × (clamp_offset offset ≡ pos n)
unfolding clamp_offset
clamp_offset_pos (pos n) = (n, ground arith)
clamp_offset_pos (negsuc n) = (0, ground arith)

-- The rows of a page.
abbrev pub page : ℕ → ℕ → String → Db → List AuditLog
page limit offset user db = take limit (drop offset (newest_first (logs_of user db)))

read_page :
    (user : String) (limit offset : ℤ) (n k : ℕ) (env : Env) (w w' : World)
    (logs : List Types.AuditLog)
    → limit ≡ pos n
    → offset ≡ pos k
    → get_audit_logs_by_user none user limit offset env w ≡ (ok logs, w')
    → (logs ≡ map audit_log_from_gen (page n k user w.db)) × (w'.db ≡ w.db)
unfolding get_audit_logs_by_user AuditLogs.get_audit_logs_by_user limit_rows offset_rows ◌>>=◌
    statement pure
read_page user limit offset n k env w w' logs ln lk h = ground arith

read_total :
    (user : String) (env : Env) (w w' : World) (n : ℕ)
    → count_audit_logs_by_user none user env w ≡ (ok n, w')
    → (n ≡ length (logs_of user w.db)) × (w'.db ≡ w.db)
unfolding count_audit_logs_by_user AuditLogs.count_audit_logs_by_user statement
read_total user env w w' n h = ground arith

length-take-map :
    (n : ℕ) (logs : List AuditLog)
    → length (map timeline_entry (map audit_log_from_gen (take n logs))) ≤ n
length-take-map zero logs = omega arith
length-take-map (suc n) [] = omega arith
length-take-map (suc n) (l ∷ logs) = omega (arith, length-take-map n logs)

-- A timeline that is returned has a limit from 1 to 1000 and an offset of 0 or more, whatever was
-- asked; it holds that page of the user's audit rows, the newest first, so no more than the limit,
-- with the number of all of them; and no table changes.
pub get_entitlement_timeline-page :
    (user : String) (limit offset : ℤ) (env : Env) (w w' : World) (r : TimelineResponse)
    → get_entitlement_timeline user limit offset env w ≡ (ok r, w')
    → (n : ℕ) × (k : ℕ) × ((r.limit ≡ pos n) × (1 ≤ n) × (n ≤ 1_000) × (r.offset ≡ pos k))
      × (r.entries ≡ map timeline_entry (map audit_log_from_gen (page n k user w.db)))
      × (length r.entries ≤ n)
      × (r.total ≡ length (logs_of user w.db))
      × (w'.db ≡ w.db)
unfolding get_entitlement_timeline pure
get_entitlement_timeline-page user limit offset env w w' r h =
    let (n, ln, low, high) = clamp_limit_pos limit in
    let (k, lk) = clamp_offset_pos offset in
    let answer = timeline_of user (clamp_limit limit) (clamp_offset offset) in
    let (logs, v, read, rest) =
      bind-ran (get_audit_logs_by_user none user (clamp_limit limit) (clamp_offset offset))
        (λ logs. count_audit_logs_by_user none user >>= λ total. pure (answer logs total)) env w w'
        r h in
    let (total, v', counted, answered) =
      bind-ran (count_audit_logs_by_user none user) (λ total. pure (answer logs total)) env v w' r
        rest in
    let same : answer logs total ≡ r = ground (arith, answered) in
    let ended : v'.db ≡ w'.db = ground (arith, answered) in
    let (found, kept) =
      read_page user (clamp_limit limit) (clamp_offset offset) n k env w v logs ln lk read in
    let (all, kept') = read_total user env v v' total counted in
    let fits = length-take-map n (drop k (newest_first (logs_of user w.db))) in
    (
      n,
      k,
      (
        sym (ap (λ (x : TimelineResponse). x.limit) same) ∙ ln,
        low,
        high,
        sym (ap (λ (x : TimelineResponse). x.offset) same) ∙ lk,
      ),
      sym (ap (λ (x : TimelineResponse). x.entries) same) ∙ ap (map timeline_entry) found,
      subst (λ (xs : List TimelineEntry). length xs ≤ n)
          (ap (map timeline_entry) (sym found) ∙ ap (λ (x : TimelineResponse). x.entries) same)
          fits,
      sym (ap (λ (x : TimelineResponse). x.total) same)
          ∙ (all ∙ ap (λ (db : Db). length (logs_of user db)) kept),
      sym ended ∙ (kept' ∙ kept),
    )
