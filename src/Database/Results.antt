-- ===== src/Database/Results.antt =====
-- Results of steps that may raise: what a result that is there says of the steps.
use sisyphus_harness.Prelude.{◌≡◌, refl, Bool, true, false, arith}
use sisyphus_harness.Database.{DbError, Result, ok, err, ◌>>=◌, ◌>>◌, require}

pub >>=-ok {ℓ ℓ'} :
    {Value : Type ℓ} {Next : Type ℓ'} (first : Result Value) (next : Value → Result Next) {b : Next}
    → (first >>= next) ≡ ok b
    → (a : Value) × (first ≡ ok a) × (next a ≡ ok b)
>>=-ok (ok a) next h = (a, refl, h)
>>=-ok (err e) next h = absurd cc

pub require-ok {ℓ} :
    {A : Type ℓ} (test : Bool) (error : DbError) (next : Result A) {b : A}
    → (require test error >> next) ≡ ok b
    → (test ≡ true) × (next ≡ ok b)
require-ok true error next h = (refl, h)
require-ok false error next h = absurd cc

pub require-true : (test : Bool) (error : DbError) → require test error ≡ ok tt → test ≡ true
require-true true error h = refl
require-true false error h = absurd cc

pub ok-injective : {A : Type 0} (a b : A) → ok a ≡ ok b → a ≡ b
ok-injective a b h = ground arith
