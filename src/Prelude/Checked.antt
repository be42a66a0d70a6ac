-- ===== src/Prelude/Checked.antt =====
-- What Python code that may raise returns: a value, or the exception by the fixed part of its message.
use mathlib.Core.Path.{◌≡◌, refl}
use mathlib.Core.Logic.{◌⊎◌, inl, inr}
use mathlib.Core.Bool.{Bool, true, false}
use Prim.Native.String.{String}
use native.Mathlib.Omega.{arith}

pub data Checked {ℓ} (A : Type ℓ) : Type ℓ where
  accepted : A → Checked A
  raised : String → Checked A

-- `if not test: raise error`
abbrev pub ensure : Bool → String → Checked (Unit {0})
ensure true message = accepted tt
ensure false message = raised message

-- `if test: raise error`
abbrev pub refuse_if : Bool → String → Checked (Unit {0})
refuse_if true message = raised message
refuse_if false message = accepted tt

infixl 5 ◌>>=◌ ◌>>◌
abbrev pub ◌>>=◌ {ℓ ℓ'} :
    {From : Type ℓ} {To : Type ℓ'} → Checked From → (From → Checked To) → Checked To
(raised message) >>= next = raised message
(accepted value) >>= next = next value

abbrev pub ◌>>◌ {ℓ} : {To : Type ℓ} → Checked (Unit {0}) → Checked To → Checked To
this >> next = this >>= λ _. next

abbrev pub is_accepted {ℓ} : {A : Type ℓ} → Checked A → Bool
is_accepted (accepted _) = true
is_accepted (raised _) = false

pub Checked-cases {ℓ} :
    {A : Type ℓ} (r : Checked A)
    → ((a : A) × (r ≡ accepted a)) ⊎ ((message : String) × (r ≡ raised message))
Checked-cases (accepted a) = inl (a, refl)
Checked-cases (raised message) = inr (message, refl)

-- A value that came out of two steps came out of the first.
pub >>=-accepted {ℓ ℓ'} :
    {From : Type ℓ} {To : Type ℓ'} (first : Checked From) (next : From → Checked To) {b : To}
    → (first >>= next) ≡ accepted b
    → (a : From) × (first ≡ accepted a) × (next a ≡ accepted b)
>>=-accepted (accepted a) next h = (a, refl, h)
>>=-accepted (raised message) next h = absurd cc

-- What came out after a test passed the test.
pub ensure-accepted {ℓ} :
    {A : Type ℓ} (test : Bool) (message : String) (next : Checked A) {b : A}
    → (ensure test message >> next) ≡ accepted b
    → (test ≡ true) × (next ≡ accepted b)
ensure-accepted true message next h = (refl, h)
ensure-accepted false message next h = absurd cc

pub refuse_if-accepted {ℓ} :
    {A : Type ℓ} (test : Bool) (message : String) (next : Checked A) {b : A}
    → (refuse_if test message >> next) ≡ accepted b
    → (test ≡ false) × (next ≡ accepted b)
refuse_if-accepted true message next h = absurd cc
refuse_if-accepted false message next h = (refl, h)

-- What came out after a check is what follows it.
pub accepted-after {ℓ} :
    {A : Type ℓ} (check : Checked (Unit {0})) (a : A) {b : A}
    → (check >> accepted a) ≡ accepted b
    → b ≡ a
accepted-after (accepted x) a h = ground arith
accepted-after (raised message) a h = absurd cc

pub accepted-injective {ℓ} : {A : Type ℓ} (a b : A) → accepted a ≡ accepted b → a ≡ b
accepted-injective a b h = ground arith

pub ensure-true : (test : Bool) (message : String) → ensure test message ≡ accepted tt → test ≡ true
ensure-true true message h = refl
ensure-true false message h = absurd cc
