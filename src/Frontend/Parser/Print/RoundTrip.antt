-- ===== src/Frontend/Parser/Print/RoundTrip.antt =====
-- The parser of frontend/Parser.cpp on a printed tree: precedence, grouping, parentheses and literals.
use sasc.Prelude.{
  ℕ, zero, suc, ◌+◌, ◌≤◌, ◌<◌, ◌≡◌, refl, sym, ◌∙◌, true, none, some, [], arith, subst, ap,
}
use native.Mathlib.Decide.{dec_lt, ℕ_discrete}
use sasc.Frontend.Outcome.{returns}
use sasc.Frontend.FrontendType.{FrontendType, unresolved}
use sasc.Frontend.Ast.{
  BinaryOperation, UnaryOperation, Expression, integer_literal, boolean_literal, identifier, binary,
  unary, call,
}
use sasc.Frontend.Token.{TokenType, same_type}
use sasc.Frontend.Parser.Stream.{Tokens, next, peek}
use sasc.Frontend.Parser.Expr.{try_parse_expr}
use sasc.Frontend.Parser.Safe.Expr.{IsParsed}
use sasc.Frontend.Parser.Print.{
  operator_token, looseness, height, wrap, bare, show, literal_text, left_rule,
}
use sasc.Frontend.Parser.Print.Literal.{literal_of-literal_text}
use sasc.Frontend.Parser.Print.Levels.{
  level, rule, rule-expr, stops, operators-token, stops-token, level-two,
}
use sasc.Frontend.Parser.Print.Climb.{weight, stops-le, stops_level, Reads, wrap-Reads}
use sasc.Frontend.Parser.Print.Loop.{LoopReads, other-LoopReads, binary-LoopReads, loop-Reads}
use sasc.Frontend.Parser.Print.Steps.{
  primary-literal, primary-boolean, primary-identifier, postfix-call, unary-two,
}

looseness-le : (o : BinaryOperation) → suc (suc (looseness o)) ≤ 12
looseness-le o = ground arith

left_rule-one : (d : ℕ) → 1 < d → left_rule d ≡ suc (suc d)
left_rule-one zero b = absurd (omega arith)
left_rule-one (suc zero) b = absurd (omega arith)
left_rule-one (suc (suc d)) b = refl

-- An operator of a level that reads one at most.
one-Reads :
    (o : BinaryOperation) (l r : Expression) (g : ℕ)
    → 1 < looseness o
    → ((f : ℕ) → weight l ≤ f → Reads l f)
    → ((f : ℕ) → weight r ≤ f → Reads r f)
    → weight (binary unresolved o l r) ≤ g
    → Reads (binary unresolved o l r) g
unfolding bare rule peek
one-Reads o l r zero high il ir w rest u p s = absurd (omega arith)
one-Reads o l r (suc g) high il ir w rest u p s =
    let h = suc (suc (looseness o)) in
    let right = wrap (height r) h (bare r) rest in
    let after = next (operator_token o) [] right in
    let ts = wrap (height l) h (bare l) after in
    ap
      (λ (n : ℕ).
        level (suc (suc g)) (looseness o) (rule (suc g) h) (wrap (height l) n (bare l) after))
      (left_rule-one (looseness o) high)
    ∙ level-two g (looseness o) (rule (suc g) h) ts right rest (operator_token o) u [] o l r
        (wrap-Reads l (suc g) h il (omega arith) (looseness-le o) after (operator_token o) refl
          (stops-token o))
        (operators-token o)
        (wrap-Reads r (suc g) h ir (omega arith) (looseness-le o) rest u p
          (stops-le h (suc h) u (omega arith) s))
        p (stops_level (looseness o) u s)

-- The rule of its height reads a tree, and so does the loop of each rule that has one.
abbrev ReadsOf : Expression → Type 0
ReadsOf e =
    ((f : ℕ) → weight e ≤ f → Reads e f) × ((g d : ℕ) → d ≤ 1 → weight e < g → LoopReads e g d)

low-ReadsOf : (e : Expression) → height e ≤ 2 → ((f : ℕ) → weight e ≤ f → Reads e f) → ReadsOf e
low-ReadsOf e b ih = (ih, λ g d low w. other-LoopReads e g d (λ k. omega arith) ih w low)

binary-ReadsOf :
    (o : BinaryOperation) (l r : Expression)
    → ReadsOf l
    → ReadsOf r
    → ReadsOf (binary unresolved o l r)
binary-ReadsOf o l r (il, ll) (ir, lr) =
    let reads : (f : ℕ) → weight (binary unresolved o l r) ≤ f → Reads (binary unresolved o l r) f =
      λ f w. elim (dec_lt 1 (looseness o)) [
        | yes high ↦ one-Reads o l r f high il ir w
        | no low ↦
            loop-Reads o l r f (omega arith) (ll f (looseness o) (omega arith) (omega arith)) ir
              (omega arith) (omega arith) w
      ] in
    (
      reads,
      λ g d low w. elim (ℕ_discrete (looseness o) d) [
        | yes same ↦ subst (LoopReads (binary unresolved o l r) g) same (
            binary-LoopReads o l r g (omega arith) (ll g (looseness o) (omega arith) (omega arith))
              ir (omega arith) (omega arith))
        | no other ↦
            other-LoopReads (binary unresolved o l r) g d (λ k. other (omega arith)) reads w low
      ],
    )

literal-Reads :
    (t : FrontendType) (v g : ℕ) → IsParsed (integer_literal t v) → Reads (integer_literal t v) g
unfolding bare rule
literal-Reads t v g (i, n, b) rest u p s =
    primary-literal (try_parse_expr g) rest (literal_text t v) (integer_literal t v)
      (literal_of-literal_text t v i n b)

unary-Reads :
    (o : UnaryOperation) (e : Expression) (g : ℕ)
    → ((f : ℕ) → weight e ≤ f → Reads e f)
    → 2 + weight e ≤ g
    → Reads (unary unresolved o e) g
unfolding bare rule
unary-Reads o e zero ih w rest u p s = absurd (omega arith)
unary-Reads o e (suc g) ih w rest u p s =
    unary-two (suc g) (wrap (height e) 2 (bare e) rest) rest e o
      (wrap-Reads e g 2 ih (omega arith) (omega arith) rest u p s)

call-Reads :
    (e : Expression) (g : ℕ)
    → ((f : ℕ) → weight e ≤ f → Reads e f)
    → 2 + weight e ≤ g
    → Reads (call unresolved e) g
unfolding bare rule peek stops same_type
call-Reads e zero ih w rest u p s = absurd (omega arith)
call-Reads e (suc g) ih w rest u p s =
    let after = next TokenType.l_paren [] (next TokenType.r_paren [] rest) in
    postfix-call (try_parse_expr (suc g)) rest (wrap (height e) 0 (bare e) after) e
      (wrap-Reads e (suc g) 0 ih (omega arith) (omega arith) after TokenType.l_paren refl refl)

parsed-ReadsOf : (e : Expression) → IsParsed e → ReadsOf e
unfolding bare rule
parsed-ReadsOf (integer_literal t v) i =
    low-ReadsOf (integer_literal t v) (omega arith) (λ g w. literal-Reads t v g i)
parsed-ReadsOf (boolean_literal b) i =
    low-ReadsOf (boolean_literal b) (omega arith)
      (λ g w rest u p s. primary-boolean (try_parse_expr g) rest b)
parsed-ReadsOf (identifier t n x) (i, j) =
    rw (i, j)
      (low-ReadsOf (identifier unresolved n none) (omega arith)
        (λ g w rest u p s. primary-identifier (try_parse_expr g) rest n))
parsed-ReadsOf (binary t o l r) (i, il, ir) =
    subst (λ v. ReadsOf (binary v o l r)) (sym i)
      (binary-ReadsOf o l r (parsed-ReadsOf l il) (parsed-ReadsOf r ir))
parsed-ReadsOf (unary t o e) (i, j) =
    let ih = (parsed-ReadsOf e j).0 in
    subst (λ v. ReadsOf (unary v o e)) (sym i)
      (low-ReadsOf (unary unresolved o e) (omega arith) (λ g w. unary-Reads o e g ih w))
parsed-ReadsOf (call t e) (i, j) =
    let ih = (parsed-ReadsOf e j).0 in
    subst (λ v. ReadsOf (call v e)) (sym i)
      (low-ReadsOf (call unresolved e) (omega arith) (λ g w. call-Reads e g ih w))

-- `try_parse_expr` reads every tree that it can build back from its tokens, where chains of
-- multiplications and of additions that group to the left are printed without parentheses, as is an
-- operand that binds tighter than its operator and a unary expression under a unary operator, and
-- other operands in parentheses, in front of any tokens of which the first is no binary operator and
-- no opening parenthesis, with fuel by the size of the tree.
pub try_parse_expr-show :
    (e : Expression) (f : ℕ) (rest : Tokens) (t : TokenType)
    → IsParsed e
    → weight e + 1 < f
    → peek rest ≡ returns t
    → stops 12 t ≡ true
    → try_parse_expr f (show 12 e rest) ≡ returns (some e, rest)
unfolding show
try_parse_expr-show e zero rest t i w p s = absurd (omega arith)
try_parse_expr-show e (suc g) rest t i w p s =
    sym (rule-expr g (wrap (height e) 12 (bare e) rest))
    ∙ wrap-Reads e g 12 ((parsed-ReadsOf e i).0) (omega arith) (omega arith) rest t p s
