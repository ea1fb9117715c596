-- ===== src/Base/Faults.antt =====
-- The result of C++ code that may leave the defined behaviour of the language. A fault ends the
-- process at best; nothing is said of what runs after it.
use mathlib.Core.Path.{◌≡◌, refl}
use mathlib.Core.Logic.{◌⊎◌, inl, inr}

pub data Fault : Type 0 where
  -- an exception of std::string that nothing catches
  out_of_range : Fault
  -- a read through a past-the-end iterator
  end_iterator : Fault
  -- an access to an object that has been destroyed
  use_after_free : Fault

pub data Outcome {ℓ} (A : Type ℓ) : Type ℓ where
  ok : A → Outcome A
  fault : Fault → Outcome A

infixl 5 ◌>>=◌
abbrev pub ◌>>=◌ {ℓ κ} : {A : Type ℓ} {B : Type κ} → Outcome A → (A → Outcome B) → Outcome B
fault e >>= next = fault e
ok a >>= next = next a

-- Code that returned went through its first part.
pub >>=-eq-ok {ℓ κ} :
    {A : Type ℓ} {B : Type κ} (code : Outcome A) (next : A → Outcome B) {out : B}
    → code >>= next ≡ ok out
    → (mid : A) × (code ≡ ok mid) × (next mid ≡ ok out)
>>=-eq-ok (fault e) next returned = cc
>>=-eq-ok (ok mid) next returned = (mid, refl, returned)

pub Outcome-cases {ℓ} :
    {A : Type ℓ} (m : Outcome A) → ((a : A) × (m ≡ ok a)) ⊎ ((f : Fault) × (m ≡ fault f))
Outcome-cases (ok a) = inl (a, refl)
Outcome-cases (fault f) = inr (f, refl)

pub bind_ok {ℓ} : {A : Type ℓ} (o : Outcome A) → (o >>= ok) ≡ o
bind_ok (ok a) = refl
bind_ok (fault f) = refl

-- Steps may be bracketed either way.
pub bind_assoc {ℓ κ μ} :
    {A : Type ℓ} {B : Type κ} {C : Type μ} (o : Outcome A) (f : A → Outcome B) (g : B → Outcome C)
    → (o >>= λ a. f a >>= g) ≡ (o >>= f >>= g)
bind_assoc (ok a) f g = refl
bind_assoc (fault e) f g = refl
