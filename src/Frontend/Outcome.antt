-- ===== src/Frontend/Outcome.antt =====
-- What a loop of the front end ends in: a value, an exception, or no end within the fuel given.
use sasc.Prelude.{◌≡◌, ◌≢◌, refl, subst, Bool, true, false, Option, none, some, if◌then◌else◌}
use sasc.Error.{Error, Result}

pub data Outcome {ℓ} (A : Type ℓ) : Type ℓ where
  out_of_fuel : Outcome A
  throws : Error → Outcome A
  returns : A → Outcome A

infixl 5 ◌>>=◌ ◌>>◌
abbrev pub ◌>>=◌ {ℓ κ} :
    {B : Type ℓ} {C : Type κ} (first : Outcome B) (rest : B → Outcome C) → Outcome C
out_of_fuel >>= rest = out_of_fuel
throws e >>= rest = throws e
returns b >>= rest = rest b

abbrev pub ◌>>◌ {κ} : {C : Type κ} (first : Outcome (Unit {0})) (rest : Outcome C) → Outcome C
first >> rest = first >>= λ _. rest

-- A function that does not loop.
abbrev pub lift {ℓ} : {B : Type ℓ} → Result B → Outcome B
lift (Result.err e) = throws e
lift (Result.ok b) = returns b

abbrev pub AsSaid {ℓ} : {A : Type ℓ} (T : Type 0) (P : A → Type 0) → Outcome A → Type 0
AsSaid T P out_of_fuel = ⊥
AsSaid T P (throws e) = T
AsSaid T P (returns a) = P a

-- It does not run out of fuel, and what it returns is as said; where it throws, `T` holds.
pub record Ensures {ℓ} {A : Type ℓ} (T : Type 0) (P : A → Type 0) (o : Outcome A) : Type 0 where
  pub as_said : AsSaid T P o

-- It may throw.
abbrev pub Safely {ℓ} : {A : Type ℓ} (P : A → Type 0) → Outcome A → Type 0
Safely P o = Ensures Unit P o

-- It does not.
abbrev pub Surely {ℓ} : {A : Type ℓ} (P : A → Type 0) → Outcome A → Type 0
Surely P o = Ensures ⊥ P o

pub threw {ℓ} : {A : Type ℓ} {P : A → Type 0} (e : Error) → Safely P (throws e)
threw e = record { as_said = tt }

pub gives {ℓ} : {A : Type ℓ} {T : Type 0} {P : A → Type 0} (a : A) → P a → Ensures T P (returns a)
gives a h = record { as_said = h }

pub >>=-Ensures {ℓ κ} :
    {A : Type ℓ} {B : Type κ} {T : Type 0} {P : A → Type 0} {Q : B → Type 0} {first : Outcome A}
    {rest : A → Outcome B}
    → Ensures T P first
    → ((a : A) → P a → Ensures T Q (rest a))
    → Ensures T Q (first >>= rest)
>>=-Ensures {first = out_of_fuel} h k = absurd h.as_said
>>=-Ensures {first = throws e} h k = record { as_said = h.as_said }
>>=-Ensures {first = returns a} h k = k a h.as_said

pub if-Ensures {ℓ} :
    {B : Type ℓ} {T : Type 0} {Q : B → Type 0} (b : Bool) {x y : Outcome B}
    → (b ≡ true → Ensures T Q x)
    → (b ≡ false → Ensures T Q y)
    → Ensures T Q (if b then x else y)
if-Ensures true h k = h refl
if-Ensures false h k = k refl

pub elim-Ensures {ℓ κ} :
    {A : Type ℓ} {B : Type κ} {T : Type 0} {Q : B → Type 0} (o : Option A) {x : Outcome B}
    {y : A → Outcome B}
    → (o ≡ none → Ensures T Q x)
    → ((a : A) → o ≡ some a → Ensures T Q (y a))
    → Ensures T Q (elim o [ none ↦ x | some a ↦ y a ])
elim-Ensures none h k = h refl
elim-Ensures (some a) h k = k a refl

pub Ensures-ends {ℓ} :
    {A : Type ℓ} {T : Type 0} {P : A → Type 0} {o : Outcome A} → Ensures T P o → o ≢ out_of_fuel
Ensures-ends {T = T} {P = P} h e = (subst (Ensures T P) e h).as_said

pub Ensures-weaken {ℓ} :
    {A : Type ℓ} {T : Type 0} {P Q : A → Type 0} {o : Outcome A}
    → Ensures T P o
    → ((a : A) → P a → Q a)
    → Ensures T Q o
Ensures-weaken {o = out_of_fuel} h k = absurd h.as_said
Ensures-weaken {o = throws e} h k = record { as_said = h.as_said }
Ensures-weaken {o = returns a} h k = gives a (k a h.as_said)

pub lift-Safely {ℓ} :
    {A : Type ℓ} {P : A → Type 0} (r : Result A)
    → ((a : A) → r ≡ Result.ok a → P a)
    → Safely P (lift r)
lift-Safely (Result.err e) h = threw e
lift-Safely (Result.ok a) h = gives a (h a refl)

pub lift-returns {ℓ} : {A : Type ℓ} (r : Result A) {a : A} → lift r ≡ returns a → r ≡ Result.ok a
lift-returns (Result.err e) h = cc
lift-returns (Result.ok b) h = cc
