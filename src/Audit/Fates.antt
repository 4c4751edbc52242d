-- ===== src/Audit/Fates.antt =====
-- What a sweep does to each entitlement and its audit trail.
use subscription_reconciler.Audit.Trail.{latest}
use subscription_reconciler.Base.{
  ℕ, String, ◌≡◌, ◌⊎◌, refl, ◌∙◌, subst, sym, true, false, Option, none, some, List, [], ◌∷◌,
  ==_iff, arith, inl, inr,
}
use subscription_reconciler.Clock.{Time}
use subscription_reconciler.Postgres.Client.Entitlements.{expire_params}
use subscription_reconciler.Postgres.Client.Entitlements.Backlog.{expire-IsKeyed}
use subscription_reconciler.Postgres.Client.Entitlements.Sweep.{expire_effect, sweep_effect}
use subscription_reconciler.Postgres.Models.{Db, UserEntitlement, AuditLog}
use subscription_reconciler.Postgres.Queries.Entitlements.{find_entitlement, is_expired}
use subscription_reconciler.Postgres.Queries.Entitlements.Keyed.{IsKeyed, count_hits, find?-expire}

-- An audit row that takes access away.
abbrev pub Revokes : Option AuditLog → Type 0
Revokes none = ⊥
Revokes (some l) = (l.previous_active ≡ some true) × (l.next_active ≡ false)

-- A row and the newest audit row of its key stay as they are; or the row has expired, gives access
-- no longer, and has an audit row that says so.
abbrev pub Fate :
    Time
    → Option UserEntitlement
    → Option UserEntitlement
    → Option AuditLog
    → Option AuditLog
    → Type 0
Fate now none none l l' = l' ≡ l
Fate now none (some r) l l' = ⊥
Fate now (some r) none l l' = ⊥
Fate now (some r) (some r') l l' =
    ((r' ≡ r) × (l' ≡ l)) ⊎ ((is_expired now r ≡ true) × (r'.active ≡ false) × Revokes l')

abbrev pub Fates : Time → Db → Db → Type 0
Fates now db db' =
    (u s : String)
    → Fate now (find_entitlement u s db) (find_entitlement u s db') (latest u s db.audit_logs)
        (latest u s db'.audit_logs)

Fate-same : (now : Time) (o : Option UserEntitlement) (l : Option AuditLog) → Fate now o o l l
Fate-same now none l = refl
Fate-same now (some r) l = inl (refl, refl)

Fate-then :
    (now : Time) (a b c : Option UserEntitlement) (l m n : Option AuditLog)
    → Fate now a b l m
    → Fate now b c m n
    → Fate now a c l n
Fate-then now none none none l m n h k = k ∙ h
Fate-then now (some x) (some y) (some z) l m n (inl (e, f)) (inl (e', f')) = inl (e' ∙ e, f' ∙ f)
Fate-then now (some x) (some y) (some z) l m n (inl (e, f)) (inr (late, off, says)) =
    inr (subst (λ r. is_expired now r ≡ true) e late, off, says)
Fate-then now (some x) (some y) (some z) l m n (inr (late, off, says)) (inl (e, f)) =
    inr (late, subst (λ r. r.active ≡ false) (sym e) off, subst Revokes (sym f) says)
Fate-then now (some x) (some y) (some z) l m n (inr (late, off, says)) (inr (late', off', says')) =
    inr (late, off', says')
Fate-then now none none (some z) l m n h k = k
Fate-then now none (some y) c l m n h k = absurd h
Fate-then now (some x) none c l m n h k = absurd h
Fate-then now (some x) (some y) none l m n h k = absurd k

expire-Fates :
    (now : Time) (row : UserEntitlement) (o : Option Time) (db : Db)
    → IsKeyed db.user_entitlements
    → Fates now db (expire_effect now row o db).1
expire-Fates now row none db k u s = Fate-same now _ _
expire-Fates now row (some x) db k u s = ground (
  arith,
  ==_iff row.user_id u,
  ==_iff row.source s,
  count_hits now row.user_id row.source db.user_entitlements k,
  find?-expire now (expire_params row x) row.user_id row.source u s db.user_entitlements,
)

pub sweep-Fates :
    (now : Time) (rows : List UserEntitlement) (n : ℕ) (db : Db)
    → IsKeyed db.user_entitlements
    → Fates now db (sweep_effect now rows n db).1
unfolding sweep_effect
sweep-Fates now [] n db k u s = Fate-same now _ _
sweep-Fates now (row ∷ rows) n db k u s =
    let db' = (expire_effect now row row.expires_at db).1 in
    Fate-then now _ (find_entitlement u s db') _ _ (latest u s db'.audit_logs) _
      (expire-Fates now row row.expires_at db k u s)
      (sweep-Fates now rows _ db' (expire-IsKeyed now row row.expires_at db k) u s)

-- No row has changed, in a sweep that was asked for none.
pub Fates-same : (now : Time) (db : Db) → Fates now db db
Fates-same now db u s = Fate-same now _ _
