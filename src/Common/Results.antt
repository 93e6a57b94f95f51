-- ===== src/Common/Results.antt =====
-- Code that can fail: a value, or the way in which the process stops.
use mathlib.Core.Path.{◌≡◌, refl}
use mathlib.Core.Logic.{◌⊎◌, inl, inr}
use mathlib.Core.Bool.{Bool, true, false}

-- `assertion`: an `assert` fails and the process aborts. `thrown`: an exception. `undefined`:
-- the standard gives the code no meaning there (a read outside a string, `front` of an empty
-- deque, a null `FILE`, a division by zero). `out_of_fuel` belongs to the model only.
pub data Fault : Type 0 where
  assertion thrown undefined out_of_fuel : Fault

pub data Result {ℓ} (A : Type ℓ) : Type ℓ where
  ok : A → Result A
  fail : Fault → Result A

module _ {ℓ κ} {B : Type κ} where
  infixl 5 ◌>>=◌ ◌>>◌
  abbrev pub ◌>>=◌ : {A : Type ℓ} → Result A → (A → Result B) → Result B
  ok value >>= rest = rest value
  fail fault >>= rest = fail fault

  -- What follows a check.
  abbrev pub ◌>>◌ : {A : Type ℓ} → Result A → Result B → Result B
  first >> rest = first >>= λ _. rest

-- `assert( b )`, and other checks with their fault.
abbrev pub check : Fault → Bool → Result (Unit {0})
check e true = ok tt
check e false = fail e

abbrev pub assert : Bool → Result (Unit {0})
assert = check assertion

-- The code returns, and the value satisfies `P`.
abbrev pub Returns {ℓ} : {A : Type ℓ} → (A → Type 0) → Result A → Type 0
Returns P (ok a) = P a
Returns P (fail e) = ⊥

pub Returns-bind {ℓ κ} :
    {A : Type ℓ} {B : Type κ} (P : A → Type 0) (Q : B → Type 0) (m : Result A) (f : A → Result B)
    → Returns P m
    → ((a : A) → P a → Returns Q (f a))
    → Returns Q (m >>= f)
Returns-bind P Q (ok a) f h k = k a h
Returns-bind P Q (fail e) f h k = absurd h

pub Returns-map {ℓ} :
    {A : Type ℓ} (P Q : A → Type 0) (m : Result A)
    → Returns P m
    → ((a : A) → P a → Q a)
    → Returns Q m
Returns-map P Q (ok a) h k = k a h
Returns-map P Q (fail e) h k = absurd h

pub Returns-ok {ℓ} :
    {A : Type ℓ} (P : A → Type 0) (m : Result A) → Returns P m → (a : A) × ((m ≡ ok a) × P a)
Returns-ok P (ok a) h = (a, (refl, h))
Returns-ok P (fail e) h = absurd h

pub >>=-assoc {ℓ κ μ} :
    {A : Type ℓ} {B : Type κ} {C : Type μ} (m : Result A) (f : A → Result B) (g : B → Result C)
    → ((m >>= f) >>= g) ≡ (m >>= λ a. f a >>= g)
>>=-assoc (ok a) f g = refl
>>=-assoc (fail e) f g = refl

-- The value, if there is one, satisfies `P`, and the fault otherwise `F`.
abbrev pub Ends {ℓ} : {A : Type ℓ} → (Fault → Type 0) → (A → Type 0) → Result A → Type 0
Ends F P (ok a) = P a
Ends F P (fail e) = F e

pub Ends-bind {ℓ κ} :
    {A : Type ℓ} {B : Type κ} (F : Fault → Type 0) (P : A → Type 0) (Q : B → Type 0) (m : Result A)
    (f : A → Result B)
    → Ends F P m
    → ((a : A) → P a → Ends F Q (f a))
    → Ends F Q (m >>= f)
Ends-bind F P Q (ok a) f h k = k a h
Ends-bind F P Q (fail e) f h k = h

pub Ends-map {ℓ} :
    {A : Type ℓ} (F : Fault → Type 0) (P Q : A → Type 0) (m : Result A)
    → Ends F P m
    → ((a : A) → P a → Q a)
    → Ends F Q m
Ends-map F P Q (ok a) h k = k a h
Ends-map F P Q (fail e) h k = h

-- The value is the one returned.
pub Ends-self :
    {A : Type 0} (F : Fault → Type 0) (m : Result A)
    → Ends F (λ a. Unit) m
    → Ends F (λ a. m ≡ ok a) m
Ends-self F (ok a) h = refl
Ends-self F (fail e) h = h

pub Result-cases {ℓ} :
    {A : Type ℓ} (r : Result A) → ((a : A) × (r ≡ ok a)) ⊎ ((e : Fault) × (r ≡ fail e))
Result-cases (ok a) = inl (a, refl)
Result-cases (fail e) = inr (e, refl)

pub >>=-ext {ℓ κ} :
    {A : Type ℓ} {B : Type κ} (m : Result A) (f g : A → Result B)
    → ((a : A) → f a ≡ g a)
    → (m >>= f) ≡ (m >>= g)
>>=-ext (ok a) f g h = h a
>>=-ext (fail e) f g h = refl
