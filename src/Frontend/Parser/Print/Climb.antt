-- ===== src/Frontend/Parser/Print/Climb.antt =====
-- The rules of frontend/Parser.cpp on a tree that a lower rule reads, and on a tree in parentheses.
use sasc.Prelude.{
  ℕ, zero, suc, ◌+◌, ◌≤◌, ◌<◌, ◌≡◌, refl, sym, ◌∙◌, Bool, true, false, ◌&&◌, Bool-cases, inl, inr,
  none, some, [], arith, ltb, subst,
}
use native.Mathlib.Decide.{dec_lt}
use sasc.Frontend.Outcome.{returns}
use sasc.Frontend.Ast.{
  BinaryOperation, Expression, integer_literal, boolean_literal, identifier, binary, unary, call,
}
use sasc.Frontend.Token.{TokenType}
use sasc.Frontend.Parser.Stream.{Tokens, next, peek}
use sasc.Frontend.Parser.Expr.{unary_operators, try_parse_expr}
use sasc.Frontend.Parser.Print.{looseness, height, wrap, bare}
use sasc.Frontend.Parser.Print.Levels.{operators, rule, rule-expr, stops, level-one}
use sasc.Frontend.Parser.Print.Steps.{primary-parenthesized, postfix-one, unary-one}

-- The first token is no operator in front of its operand.
abbrev NotUnary : Tokens → Type 0
NotUnary ts = (u : TokenType) × (peek ts ≡ returns u) × (unary_operators u ≡ none)

and-left : (a b : Bool) → (a && b) ≡ true → a ≡ true
and-left true b h = refl
and-left false b h = h

pub stops-le : (h k : ℕ) (t : TokenType) → h ≤ k → stops k t ≡ true → stops h t ≡ true
unfolding stops
stops-le zero k t b s = refl
stops-le (suc zero) zero t b s = absurd (omega arith)
stops-le (suc (suc h)) zero t b s = absurd (omega arith)
stops-le (suc zero) (suc zero) t b s = s
stops-le (suc (suc h)) (suc zero) t b s = absurd (omega arith)
stops-le (suc zero) (suc (suc zero)) t b s = s
stops-le (suc (suc zero)) (suc (suc zero)) t b s = s
stops-le (suc (suc (suc h))) (suc (suc zero)) t b s = absurd (omega arith)
stops-le (suc h) (suc (suc (suc d))) t b s = elim (dec_lt (suc h) (suc (suc (suc d)))) [
  | yes l ↦ stops-le (suc h) (suc (suc d)) t (omega arith) (and-left _ _ s)
  | no n ↦ subst (λ m. stops m t ≡ true) {x = suc (suc (suc d))} {y = suc h} (omega arith) s
]

pub stops_level :
    (d : ℕ) (t : TokenType) → stops (suc (suc (suc d))) t ≡ true → operators d t ≡ none
unfolding stops
stops_level d t s = ground arith

looseness-le : (o : BinaryOperation) → suc (suc (looseness o)) ≤ 12
looseness-le o = ground arith

module _ (g : ℕ) (ts rest : Tokens) (e : Expression) (t : TokenType)
    (p : peek rest ≡ returns t) where
  higher :
      (k : ℕ)
      → rule g k ts ≡ returns (some e, rest)
      → stops (suc k) t ≡ true
      → (k ≤ 1 → NotUnary ts)
      → rule g (suc k) ts ≡ returns (some e, rest)
  unfolding rule stops
  higher zero r s n = postfix-one (try_parse_expr g) rest ts e t r p (ground arith)
  higher (suc zero) r s n = let (u, q, z) = n (omega arith) in unary-one g ts rest e u q z r
  higher (suc (suc d)) r s n =
      level-one g d (rule g (suc (suc d))) ts rest e t r p (stops_level d t s)

  -- What a rule reads, the rules above it read too, where none of their operators follows.
  climb :
      (h k : ℕ)
      → (h ≤ 1 → NotUnary ts)
      → h ≤ k
      → stops k t ≡ true
      → rule g h ts ≡ returns (some e, rest)
      → rule g k ts ≡ returns (some e, rest)
  climb h zero n b s r =
      subst (λ m. rule g m ts ≡ returns (some e, rest)) {x = h} {y = zero} (omega arith) r
  climb h (suc k) n b s r = elim (dec_lt h (suc k)) [
    | yes l ↦
        higher k (climb h k n (omega arith) (stops-le k (suc k) t (omega arith) s) r) s
          (λ small. n (omega arith))
    | no m ↦ subst (λ m. rule g m ts ≡ returns (some e, rest)) {x = h} {y = suc k} (omega arith) r
  ]

-- How much fuel a tree takes.
abbrev pub weight : Expression → ℕ
weight (integer_literal t v) = 0
weight (boolean_literal b) = 0
weight (identifier t n s) = 0
weight (binary t o l r) = 2 + weight l + weight r
weight (unary t o e) = 2 + weight e
weight (call t e) = 2 + weight e

-- The rule of its own height reads a tree without parentheses round it.
abbrev pub Reads : Expression → ℕ → Type 0
Reads e g =
    (rest : Tokens) (t : TokenType)
    → peek rest ≡ returns t
    → stops (height e) t ≡ true
    → rule g (height e) (bare e rest) ≡ returns (some e, rest)

height-le : (e : Expression) → height e ≤ 12
height-le e = ground arith

wrap-NotUnary :
    (k h : ℕ) (body : Tokens → Tokens) (rest : Tokens)
    → (k ≤ h → NotUnary (body rest))
    → NotUnary (wrap k h body rest)
unfolding wrap unary_operators peek
wrap-NotUnary k h body rest n = elim (Bool-cases (ltb h k)) [
  | inl e ↦ rw e (TokenType.l_paren, refl, refl)
  | inr e ↦ rw e (n (ground arith))
]

pub bare-NotUnary : (e : Expression) (rest : Tokens) → height e ≤ 1 → NotUnary (bare e rest)
unfolding bare unary_operators peek
bare-NotUnary (integer_literal t v) rest b = (TokenType.int_literal, refl, refl)
bare-NotUnary (boolean_literal true) rest b = (TokenType.keyword_true, refl, refl)
bare-NotUnary (boolean_literal false) rest b = (TokenType.keyword_false, refl, refl)
bare-NotUnary (identifier t n s) rest b = (TokenType.ident, refl, refl)
bare-NotUnary (binary t o l r) rest b = absurd (omega arith)
bare-NotUnary (unary t o e) rest b = absurd (omega arith)
bare-NotUnary (call t e) rest b =
    wrap-NotUnary (height e) 0 (bare e) _ (λ k. bare-NotUnary e _ (omega arith))

parenthesized-Reads :
    (e : Expression) (g : ℕ) (rest : Tokens)
    → Reads e g
    → rule (suc g) 0 (next TokenType.l_paren [] (bare e (next TokenType.r_paren [] rest)))
      ≡ returns (some e, rest)
unfolding rule stops peek
parenthesized-Reads e g rest r =
    let after = next TokenType.r_paren [] rest in
    let t = TokenType.r_paren in
    let inner : rule g 12 (bare e after) ≡ returns (some e, after) =
      climb g (bare e after) after e t refl (height e) 12 (bare-NotUnary e after) (height-le e) refl
        (r after t refl (stops-le (height e) 12 t (height-le e) refl)) in
    primary-parenthesized (try_parse_expr (suc g)) rest (bare e after) e
      (sym (rule-expr g (bare e after)) ∙ inner)

l_paren-NotUnary : (ts : Tokens) → NotUnary (next TokenType.l_paren [] ts)
unfolding unary_operators peek
l_paren-NotUnary ts = (TokenType.l_paren, refl, refl)

-- A rule of any height reads a tree, in parentheses where it needs them.
pub wrap-Reads :
    (e : Expression) (g h : ℕ)
    → ((f : ℕ) → weight e ≤ f → Reads e f)
    → weight e < g
    → h ≤ 12
    → (rest : Tokens) (t : TokenType) → peek rest ≡ returns t
    → stops h t ≡ true
    → rule g h (wrap (height e) h (bare e) rest) ≡ returns (some e, rest)
unfolding wrap
wrap-Reads e zero h ih w b rest t p s = absurd (omega arith)
wrap-Reads e (suc g) h ih w b rest t p s = elim (Bool-cases (ltb h (height e))) [
  | inl l ↦ rw l (
      climb (suc g) _ rest e t p 0 h (λ _. l_paren-NotUnary _) (omega arith) s
        (parenthesized-Reads e g rest (ih g (omega arith))))
  | inr l ↦
      let low : height e ≤ h = ground arith in
      rw l (
        climb (suc g) (bare e rest) rest e t p (height e) h (bare-NotUnary e rest) low s
          (ih (suc g) (omega arith) rest t p (stops-le (height e) h t low s)))
]
