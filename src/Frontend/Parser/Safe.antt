-- ===== src/Frontend/Parser/Safe.antt =====
-- The end of a parse of frontend/Parser.cpp: what its steps on the tokens ensure.
pub mod Expr
pub mod Unary
pub mod Decl
pub mod Source
use sasc.Prelude.{
  ℕ, zero, suc, ◌<◌, ◌≡◌, ◌≢◌, refl, sym, ◌∙◌, Bool, true, false, Option, none, some, arith, subst,
  if◌then◌else◌, List, [],
}
use sasc.Error.{syntax_error}
use sasc.Frontend.Outcome.{
  gives, threw, Outcome, out_of_fuel, throws, returns, ◌>>=◌, lift, lift-Safely, Safely,
  >>=-Ensures, if-Ensures, elim-Ensures,
}
use sasc.Frontend.Token.{TokenType, end_of_file, same_type, unexpected}
use sasc.Frontend.Parser.Stream.{
  Tokens, ended, diverges, next, Parser, peek, take, expect, Ends, size,
}
use sasc.Frontend.Ast.{Expression}
use sasc.Frontend.Parser.Expr.{required}
use Prim.Native.Char.{Char}

-- What is left of the tokens.
abbrev pub Shorter : Tokens → Tokens → Type 0
Shorter rest ts = (size rest < size ts) × Ends rest

-- A rule that does not match leaves the tokens untouched, and one that matches takes some.
abbrev pub After {ℓ} : {A : Type ℓ} (Q : A → Type 0) → Tokens → Option A × Tokens → Type 0
After Q ts (none, rest) = rest ≡ ts
After Q ts (some a, rest) = Q a × Shorter rest ts

abbrev pub Takes {ℓ} : {A : Type ℓ} (Q : A → Type 0) → Tokens → A × Tokens → Type 0
Takes Q ts (a, rest) = Q a × Shorter rest ts

-- On fewer tokens than `n`.
abbrev pub Safe {ℓ} : {A : Type ℓ} (Q : A → Type 0) → ℕ → Parser A → Type 0
Safe Q n rule = (ts : Tokens) → Ends ts → size ts < n → Safely (After Q ts) (rule ts)

pub peek-Safely : (ts : Tokens) → Ends ts → Safely (λ t. peek ts ≡ returns t) (peek ts)
unfolding peek
peek-Safely ended e = gives end_of_file refl
peek-Safely diverges e = absurd e
peek-Safely (next t s ts) e = gives t refl

pub take-Safely :
    (ts : Tokens) → Ends ts → peek ts ≢ returns end_of_file → Safely (λ r. Shorter r.1 ts) (take ts)
unfolding peek take size
take-Safely ended e n = absurd (n refl)
take-Safely diverges e n = absurd e
take-Safely (next t s ts) e n = gives ((t, s), ts) (ground arith, e)

unexpected-Safely {ℓ} :
    {A : Type ℓ} {P : A → Type 0} (u : TokenType) (s : List Char) (t : TokenType)
    → Safely P (lift (unexpected u s t) >>= λ _. throws syntax_error)
unexpected-Safely u s t =
    >>=-Ensures (lift-Safely {P = λ _. Unit} (unexpected u s t) (λ _ _. tt))
      (λ _ _. threw syntax_error)

pub expect-Safely :
    (t : TokenType) (ts : Tokens)
    → Ends ts
    → same_type end_of_file t ≡ false
    → Safely (λ r. Shorter r.1 ts) (expect t ts)
unfolding expect take size
expect-Safely t ended e n = rw n (unexpected-Safely end_of_file [] t)
expect-Safely t diverges e n = absurd e
expect-Safely t (next u s ts) e n =
    if-Ensures (same_type u t) (λ _. gives (s, ts) (ground arith, e)) (λ _. unexpected-Safely u s t)

pub expect-terminates :
    (t : TokenType) (ts : Tokens)
    → Ends ts
    → Safely (λ (_ : List Char × Tokens). Unit) (expect t ts)
unfolding expect take
expect-terminates t ended e =
    if-Ensures (same_type end_of_file t) (λ _. gives ([], ended) tt)
      (λ _. unexpected-Safely end_of_file [] t)
expect-terminates t diverges e = absurd e
expect-terminates t (next u s ts) e =
    if-Ensures (same_type u t) (λ _. gives (s, ts) tt) (λ _. unexpected-Safely u s t)

pub Shorter-trans : (ts us vs : Tokens) → Shorter ts us → Shorter us vs → Shorter ts vs
Shorter-trans ts us vs (h, e) (k, _) = (omega arith, e)

-- A token that one of the operators matches is taken.
pub on_operator-Safely {ℓ κ} :
    {A : Type ℓ} {B : Type κ} {Q : B → Type 0} (operators : TokenType → Option A)
    {other : Outcome B} {rest : A → (TokenType × List Char) × Tokens → Outcome B} (ts : Tokens)
    → operators end_of_file ≡ none
    → Ends ts
    → Safely Q other
    → ((a : A) (r : (TokenType × List Char) × Tokens) → Shorter r.1 ts → Safely Q (rest a r))
    → Safely Q (peek ts >>= λ t. elim (operators t) [ none ↦ other | some a ↦ take ts >>= rest a ])
on_operator-Safely operators ts n e h k = >>=-Ensures (peek-Safely ts e) (λ t p.
    elim-Ensures (operators t) (λ _. h) (λ a q. >>=-Ensures (take-Safely ts e (λ z. cc)) (k a)))

-- A token of the type asked for is taken.
pub on_type-Safely {ℓ} :
    {B : Type ℓ} {Q : B → Type 0} (expected : TokenType) {other : Outcome B}
    {rest : (TokenType × List Char) × Tokens → Outcome B} (ts : Tokens)
    → same_type end_of_file expected ≡ false
    → Ends ts
    → Safely Q other
    → ((r : (TokenType × List Char) × Tokens) → Shorter r.1 ts → Safely Q (rest r))
    → Safely Q (peek ts >>= λ t. if same_type t expected then take ts >>= rest else other)
on_type-Safely expected ts n e h k = >>=-Ensures (peek-Safely ts e) (λ t p.
    if-Ensures (same_type t expected) (λ q. >>=-Ensures (take-Safely ts e (λ z. cc)) k) (λ _. h))

pub required-Safely :
    (Q : Expression → Type 0) (n : ℕ) (rule : Parser Expression) (ts : Tokens)
    → Safe Q n rule
    → Ends ts
    → size ts < n
    → Safely (Takes Q ts) (required rule ts)
unfolding required
required-Safely Q n rule ts h e l = >>=-Ensures (h ts e l) required_case
  where
    required_case :
        (r : Option Expression × Tokens)
        → After Q ts r
        → Safely (Takes Q ts) (elim r.0 [ none ↦ throws syntax_error | some x ↦ returns (x, r.1) ])
    required_case (none, rest) q = threw syntax_error
    required_case (some x, rest) q = gives (x, rest) q

-- `none` is passed on, and the rest goes on behind what the rule took.
pub matched-Safely {ℓ κ} :
    {A : Type ℓ} {B : Type κ} (P : A → Type 0) (Q : B → Type 0) (ts : Tokens)
    {first : Outcome (Option A × Tokens)} {rest : A → Tokens → Outcome (Option B × Tokens)}
    → Safely (After P ts) first
    → ((a : A) (ts1 : Tokens) → P a → Shorter ts1 ts → Safely (After Q ts) (rest a ts1))
    → Safely
        (After Q ts)
        (first >>= λ r. elim r.0 [ none ↦ returns (none, r.1) | some a ↦ rest a r.1 ])
matched-Safely {A = A} P Q ts {rest = rest} h k = >>=-Ensures h matched_case
  where
    matched_case :
        (r : Option A × Tokens)
        → After P ts r
        → Safely (After Q ts) (elim r.0 [ none ↦ returns (none, r.1) | some a ↦ rest a r.1 ])
    matched_case (none, ts1) q = gives (none, ts1) q
    matched_case (some a, ts1) (q, s) = k a ts1 q s
