-- ===== src/Ir/Printer/Seen.antt =====
-- Membership in a list of places, and how many places are not in one, for ir/IrPrinter.cpp.
use sasc.Prelude.{
  ℕ, zero, suc, ◌+◌, ◌≤◌, ◌<◌, ◌≡◌, refl, subst, Bool, true, false, Bool-cases, ◌==◌, ==_iff,
  ==_refl, ◌||◌, if◌then◌else◌, ◌⊎◌, inl, inr, List, [], ◌∷◌, ◌++◌, arith,
}
use sasc.Ir.Printer.Object.{is_seen}

-- A number is in a list.
abbrev pub In : ℕ → List ℕ → Type 0
In q xs = is_seen q xs ≡ true

pub In-here : (q : ℕ) (xs : List ℕ) → In q (q ∷ xs)
unfolding is_seen
In-here q xs = rw (==_refl q) refl

or_true : (b c : Bool) → c ≡ true → b || c ≡ true
or_true true c h = refl
or_true false c h = h

pub In-there : (q x : ℕ) (xs : List ℕ) → In q xs → In q (x ∷ xs)
unfolding is_seen
In-there q x xs h = or_true (x == q) (is_seen q xs) h

or_cases : (b c : Bool) → b || c ≡ true → (b ≡ true) ⊎ (c ≡ true)
or_cases true c h = inl refl
or_cases false c h = inr h

pub In-cases : (q x : ℕ) (xs : List ℕ) → In q (x ∷ xs) → (x ≡ q) ⊎ In q xs
unfolding is_seen
In-cases q x xs h = elim (or_cases (x == q) (is_seen q xs) h) [
  | inl e ↦ inl ((==_iff x q).0 e)
  | inr k ↦ inr k
]

pub In-append_cases : (q : ℕ) (xs ys : List ℕ) → In q (xs ++ ys) → In q xs ⊎ In q ys
In-append_cases q [] ys h = inr h
In-append_cases q (x ∷ xs) ys h = elim (In-cases q x (xs ++ ys) h) [
  | inl e ↦ inl (subst (λ y. In y (x ∷ xs)) e (In-here x xs))
  | inr k ↦ elim (In-append_cases q xs ys k) [ inl m ↦ inl (In-there q x xs m) | inr m ↦ inr m ]
]

pub In-left : (q : ℕ) (xs ys : List ℕ) → In q xs → In q (xs ++ ys)
unfolding is_seen
In-left q [] ys h = cc
In-left q (x ∷ xs) ys h = elim (In-cases q x xs h) [
  | inl e ↦ subst (λ y. In y (x ∷ (xs ++ ys))) e (In-here x (xs ++ ys))
  | inr k ↦ In-there q x (xs ++ ys) (In-left q xs ys k)
]

pub In-right : (q : ℕ) (xs ys : List ℕ) → In q ys → In q (xs ++ ys)
In-right q [] ys h = h
In-right q (x ∷ xs) ys h = In-there q x (xs ++ ys) (In-right q xs ys h)

-- How many of the first `n` numbers are not in a list.
unfoldable pub unseen : ℕ → List ℕ → ℕ
unfolding is_seen
unseen zero seen = 0
unseen (suc n) seen = (if is_seen n seen then 0 else 1) + unseen n seen

pub unseen-le : (n : ℕ) (seen : List ℕ) → unseen n seen ≤ n
unfolding unseen
unseen-le zero seen = omega arith
unseen-le (suc n) seen = elim (Bool-cases (is_seen n seen)) [
  | inl e ↦ rw (e, unseen) (omega (arith, unseen-le n seen))
  | inr e ↦ rw (e, unseen) (omega (arith, unseen-le n seen))
]

unseen-cons_le : (n b : ℕ) (seen : List ℕ) → unseen n (b ∷ seen) ≤ unseen n seen
unfolding unseen is_seen
unseen-cons_le zero b seen = omega arith
unseen-cons_le (suc n) b seen = one_less (b == n) (is_seen n seen) (unseen-cons_le n b seen)
  where
    one_less :
        {k l : ℕ} (x y : Bool) → k ≤ l → (if x || y then 0 else 1) + k ≤ (if y then 0 else 1) + l
    one_less true true h = omega (arith, h)
    one_less true false h = omega (arith, h)
    one_less false true h = omega (arith, h)
    one_less false false h = omega (arith, h)

-- Seeing a number that has not been seen leaves fewer.
pub unseen-cons_lt :
    (n b : ℕ) (seen : List ℕ)
    → is_seen b seen ≡ false
    → b < n
    → suc (unseen n (b ∷ seen)) ≤ unseen n seen
unfolding unseen is_seen
unseen-cons_lt zero b seen h k = elim k [ ]
unseen-cons_lt (suc n) b seen h k = elim (Bool-cases (b == n)) [
  | inl e ↦
      let same = (==_iff b n).0 e in
      let h' = subst (λ x. is_seen x seen ≡ false) same h in
      rw (e, h') (omega (arith, unseen-cons_le n b seen))
  | inr e ↦
      let below : b < n = ground (arith, e, k) in
      rw e (omega (arith, unseen-cons_lt n b seen h below))
]
