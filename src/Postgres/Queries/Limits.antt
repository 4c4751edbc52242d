-- ===== src/Postgres/Queries/Limits.antt =====
-- LIMIT and OFFSET take an int32 parameter and refuse a negative one.
use subscription_reconciler.Base.{List}
use subscription_reconciler.Base.Int.{ℤ, pos, negsuc}
use subscription_reconciler.Base.Lists.{take, drop}
use subscription_reconciler.Domain.Error.{violation}
use subscription_reconciler.Postgres.Session.{Result, ok, err}

unfoldable pub limit_rows : {A : Type 0} → ℤ → List A → Result (List A)
limit_rows (pos n) rows = ok (take n rows)
limit_rows (negsuc n) rows = err violation

unfoldable pub offset_rows : {A : Type 0} → ℤ → List A → Result (List A)
offset_rows (pos n) rows = ok (drop n rows)
offset_rows (negsuc n) rows = err violation

abbrev pub with_rows : {A B : Type 0} → Result A → (A → Result B) → Result B
with_rows (ok a) f = f a
with_rows (err e) f = err e
