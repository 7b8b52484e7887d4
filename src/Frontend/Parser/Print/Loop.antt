-- ===== src/Frontend/Parser/Print/Loop.antt =====
-- The loops of `try_parse_additive` and `try_parse_multiplicative` of frontend/Parser.cpp on a printed tree:
-- operators of one level group to the left.
use sasc.Prelude.{
  ℕ, zero, suc, ◌+◌, ◌≤◌, ◌<◌, ◌≡◌, ◌≢◌, refl, ◌∙◌, true, ap, none, some, List, [], arith,
}
use sasc.Frontend.Outcome.{returns}
use sasc.Frontend.FrontendType.{unresolved}
use sasc.Frontend.Ast.{BinaryOperation, Expression, binary}
use sasc.Frontend.Token.{TokenType}
use sasc.Frontend.Parser.Stream.{Tokens, next, Parser, peek, take}
use sasc.Frontend.Parser.Expr.{required, operator_loop, operators_left}
use sasc.Frontend.Parser.Print.{operator_token, looseness, left_rule, height, wrap, bare}
use sasc.Frontend.Parser.Print.Levels.{operators, level, rule, stops, operators-token, stops-token}
use sasc.Frontend.Parser.Print.Climb.{weight, stops-le, stops_level, Reads, wrap-Reads}
use Prim.Native.Char.{Char}

loop-more :
    (d f : ℕ) (operand : Parser Expression) (ret r : Expression) (u : TokenType) (str : List Char)
    (ts rest : Tokens) (o : BinaryOperation)
    → operators d u ≡ some o
    → operand ts ≡ returns (some r, rest)
    → operator_loop (operators d) operand (suc f) ret (next u str ts)
      ≡ operator_loop (operators d) operand f (binary unresolved o ret r) rest
unfolding operator_loop required peek take
loop-more d f operand ret r u str ts rest o h k = ground arith

loop-last :
    (d f : ℕ) (operand : Parser Expression) (ret : Expression) (rest : Tokens) (t : TokenType)
    → peek rest ≡ returns t
    → operators d t ≡ none
    → operator_loop (operators d) operand (suc f) ret rest ≡ returns (some ret, rest)
unfolding operator_loop
loop-last d f operand ret rest t p n = ground arith

left-first :
    (d f : ℕ) (operand : Parser Expression) (ts rest : Tokens) (l : Expression)
    → operand ts ≡ returns (some l, rest)
    → operators_left (operators d) f operand ts ≡ operator_loop (operators d) operand f l rest
unfolding operators_left
left-first d f operand ts rest l h = ground arith

level-left :
    (f d : ℕ) (operand : Parser Expression) (ts : Tokens)
    → d ≤ 1
    → level f d operand ts ≡ operators_left (operators d) f operand ts
unfolding level
level-left f zero operand ts b = refl
level-left f (suc zero) operand ts b = refl
level-left f (suc (suc d)) operand ts b = absurd (omega arith)

left_rule-loop : (d : ℕ) → d ≤ 1 → left_rule d ≡ suc (suc (suc d))
left_rule-loop zero b = refl
left_rule-loop (suc zero) b = refl
left_rule-loop (suc (suc d)) b = absurd (omega arith)

-- A rule with a loop comes, on a tree printed for it, to the loop behind that tree, with enough fuel left.
abbrev pub LoopReads : Expression → ℕ → ℕ → Type 0
LoopReads e g d =
    (rest : Tokens) (t : TokenType)
    → peek rest ≡ returns t
    → stops (suc (suc d)) t ≡ true
    → (f : ℕ) × (suc g ≤ f + weight e)
      × (operators_left (operators d) (suc g) (rule g (suc (suc d)))
            (wrap (height e) (suc (suc (suc d))) (bare e) rest)
          ≡ operator_loop (operators d) (rule g (suc (suc d))) f e rest)

wrap-other :
    (k d : ℕ) (body : Tokens → Tokens) (rest : Tokens)
    → k ≢ suc (suc (suc d))
    → wrap k (suc (suc (suc d))) body rest ≡ wrap k (suc (suc d)) body rest
unfolding wrap
wrap-other k d body rest n = ground arith

-- A tree that is no operator of the level.
pub other-LoopReads :
    (e : Expression) (g d : ℕ)
    → height e ≢ suc (suc (suc d))
    → ((f : ℕ) → weight e ≤ f → Reads e f)
    → weight e < g
    → d ≤ 1
    → LoopReads e g d
other-LoopReads e g d n ih w b rest t p s = (
  suc g,
  omega arith,
  ap (operators_left (operators d) (suc g) (rule g (suc (suc d))))
        (wrap-other (height e) d (bare e) rest n)
      ∙ left-first d (suc g) (rule g (suc (suc d))) (wrap (height e) (suc (suc d)) (bare e) rest)
          rest e (wrap-Reads e g (suc (suc d)) ih w (omega arith) rest t p s),
)

loop-step :
    (d g f w v : ℕ)
    → suc g ≤ f + v
    → v < g
    → v + 1 ≤ w
    → (operand : Parser Expression) (ret r : Expression) (u : TokenType) (str : List Char)
      (ts rest : Tokens) (o : BinaryOperation)
    → operators d u ≡ some o
    → operand ts ≡ returns (some r, rest)
    → (k : ℕ) × (suc g ≤ k + w)
      × (operator_loop (operators d) operand f ret (next u str ts)
          ≡ operator_loop (operators d) operand k (binary unresolved o ret r) rest)
loop-step d g zero w v b lt le operand ret r u str ts rest o h k = absurd (omega arith)
loop-step d g (suc f) w v b lt le operand ret r u str ts rest o h k =
    (f, omega arith, loop-more d f operand ret r u str ts rest o h k)

loop-end :
    (d g f w : ℕ) (operand : Parser Expression) (ret : Expression) (rest : Tokens) (t : TokenType)
    → suc g ≤ f + w
    → w ≤ g
    → peek rest ≡ returns t
    → operators d t ≡ none
    → operator_loop (operators d) operand f ret rest ≡ returns (some ret, rest)
loop-end d g zero w operand ret rest t b le p n = absurd (omega arith)
loop-end d g (suc f) w operand ret rest t b le p n = loop-last d f operand ret rest t p n

module _ (o : BinaryOperation) (l r : Expression) (g : ℕ) (low : looseness o ≤ 1)
    (left : LoopReads l g (looseness o)) (ih : (f : ℕ) → weight r ≤ f → Reads r f)
    (wl : weight l < g) (wr : weight r < g) where
  -- An operator of the level, behind its left operand.
  binary-loop :
      (rest : Tokens) (t : TokenType)
      → peek rest ≡ returns t
      → stops (suc (suc (looseness o))) t ≡ true
      → (f : ℕ) × (suc g ≤ f + weight (binary unresolved o l r))
        × (operators_left
              (operators (looseness o))
              (suc g)
              (rule g (suc (suc (looseness o))))
              (bare (binary unresolved o l r) rest)
            ≡ operator_loop
                (operators (looseness o))
                (rule g (suc (suc (looseness o))))
                f
                (binary unresolved o l r)
                rest)
  unfolding bare peek
  binary-loop rest t p s =
      let h = suc (suc (looseness o)) in
      let right = wrap (height r) h (bare r) rest in
      let after = next (operator_token o) [] right in
      let (f, b, q) = left after (operator_token o) refl (stops-token o) in
      let (k, c, x) =
        loop-step (looseness o) g f (weight (binary unresolved o l r)) (weight l) b wl (omega arith)
          (rule g h) l r (operator_token o) [] right rest o (operators-token o)
          (wrap-Reads r g h ih wr (omega arith) rest t p s) in
      (
        k,
        c,
        ap
              (λ (n : ℕ).
                operators_left (operators (looseness o)) (suc g) (rule g h)
                  (wrap (height l) n (bare l) after))
              (left_rule-loop (looseness o) low)
            ∙ (q ∙ x),
      )

  pub binary-LoopReads : LoopReads (binary unresolved o l r) g (looseness o)
  unfolding wrap
  binary-LoopReads rest t p s = let (f, b, q) = binary-loop rest t p s in (f, b, ground (arith, q))

  pub loop-Reads : weight (binary unresolved o l r) ≤ g → Reads (binary unresolved o l r) g
  unfolding rule
  loop-Reads w rest t p s =
      let d = looseness o in
      let (f, b, q) =
        binary-loop rest t p (stops-le (suc (suc d)) (suc (suc (suc d))) t (omega arith) s) in
      level-left (suc g) d (rule g (suc (suc d))) (bare (binary unresolved o l r) rest) low
      ∙ (q
          ∙ loop-end d g f (weight (binary unresolved o l r)) (rule g (suc (suc d)))
              (binary unresolved o l r) rest t b w p (stops_level d t s))
