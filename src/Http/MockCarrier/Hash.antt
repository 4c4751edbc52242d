-- ===== src/Http/MockCarrier/Hash.antt =====
-- The hash of a user against its definition with no bound.
use subscription_reconciler.Base.{
  ℕ, ◌+◌, ◌*◌, ◌%◌, ◌^◌, ◌≡◌, ◌∙◌, ap, refl, String, List, [], ◌∷◌, arith,
}
use subscription_reconciler.Base.Decimal.{codes}
use subscription_reconciler.Http.MockCarrier.{word, hash_from, hash_user_id}

-- The hash of Bernstein: times 33, plus the next code point.
abbrev pub djb2 : ℕ → List ℕ → ℕ
djb2 h [] = h
djb2 h (c ∷ cs) = djb2 (h * 33 + c) cs

step_mod :
    (h c : ℕ)
    → ((h % 2 ^ 64 * 2 ^ 5 % 2 ^ 64 + h % 2 ^ 64) % 2 ^ 64 + c) % 2 ^ 64 ≡ (h * 33 + c) % 2 ^ 64
step_mod h c = omega arith

hash_from-mod : (h : ℕ) (cs : List ℕ) → hash_from (h % word) cs ≡ djb2 h cs % word
unfolding hash_from
hash_from-mod h [] = refl
hash_from-mod h (c ∷ cs) =
    ap (λ (x : ℕ). hash_from x cs) (step_mod h c) ∙ hash_from-mod (h * 33 + c) cs

-- The loop in uint64, with its shifts and its wrapping additions, computes the hash of Bernstein of
-- the code points, from 5381, modulo 2^64.
pub hash_user_id-djb2 : (user : String) → hash_user_id user ≡ djb2 5381 (codes user) % 2 ^ 64
unfolding hash_user_id
hash_user_id-djb2 user = hash_from-mod 5381 (codes user)
