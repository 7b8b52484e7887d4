-- ===== src/Frontend/Parser/Safe/Decl.antt =====
-- The end and the result of the rules for declarations and statements of frontend/Parser.cpp and of
-- the loop of `AST::AST` in frontend/AST.cpp.
use sasc.Prelude.{
  ℕ, zero, suc, ◌<◌, ◌≤◌, ◌≢◌, refl, sym, Option, none, some, arith, if◌then◌else◌, All, List, [],
  ◌∷◌, subst,
}
use sasc.Frontend.Outcome.{
  out_of_fuel, returns, ◌>>=◌, Safely, gives, >>=-Ensures, Ensures-ends, lift-Safely,
}
use sasc.Frontend.FrontendType.{void, from_string}
use sasc.Frontend.Ast.{Expression, Statement, return_statement, ArgDefinition, FunctionDefinition}
use sasc.Frontend.Check.{analyse}
use sasc.Frontend.Token.{TokenType, text, same_type}
use sasc.Frontend.Parser.Stream.{Tokens, Parser, Ends, size, peek, take}
use sasc.Frontend.Parser.{
  try_parse_arg_definition, try_parse_return_stmt, try_parse_stmt, many, skip_r_paren, parse_args,
  parse_return_type, parse_body, try_parse_function_definition, try_parse_top_level_decl, parse,
  build,
}
use sasc.Frontend.Parser.Expr.{try_parse_expr}
use sasc.Frontend.Parser.Safe.{
  expect-terminates, After, Takes, Safe, on_type-Safely, required-Safely, Shorter-trans,
  expect-Safely,
}
use sasc.Frontend.Parser.Safe.Expr.{IsParsed}
use sasc.Frontend.Parser.Safe.Unary.{try_parse_expr-Safely}

abbrev pub Optional {ℓ} : {A : Type ℓ} (P : A → Type 0) → Option A → Type 0
Optional P none = Unit
Optional P (some a) = P a

abbrev pub StatementIsParsed : Statement → Type 0
StatementIsParsed (return_statement e) = Optional IsParsed e

abbrev pub FunctionIsParsed : FunctionDefinition → Type 0
FunctionIsParsed f = All StatementIsParsed f.body_statements × Optional IsParsed f.body_return_expr

-- At most what there was is left.
abbrev pub Within : Tokens → Tokens → Type 0
Within rest ts = (size rest ≤ size ts) × Ends rest

abbrev pub Keeps {ℓ} : {A : Type ℓ} (Q : A → Type 0) → Tokens → A × Tokens → Type 0
Keeps Q ts (a, rest) = Q a × Within rest ts

many-Safely {ℓ} :
    {A : Type ℓ} (Q : A → Type 0) (n : ℕ) (rule : Parser A) (f : ℕ) (ts : Tokens)
    → Safe Q n rule
    → Ends ts
    → size ts < n
    → size ts < f
    → Safely (Keeps (All Q) ts) (many rule f ts)
unfolding many
many-Safely Q n rule zero ts h e k l = absurd (omega arith)
many-Safely {A = A} Q n rule (suc f) ts h e k l =
    >>=-Ensures (h ts e k) (go_on (λ ts1 e1 k1 l1. many-Safely Q n rule f ts1 h e1 k1 l1))
  where
    go_on :
        (again : (ts1 : Tokens)
          → Ends ts1
          → size ts1 < n
          → size ts1 < f
          → Safely (Keeps (All Q) ts1) (many rule f ts1))
        (r : Option A × Tokens)
        → After Q ts r
        → Safely (Keeps (All Q) ts) (elim r.0 [
          | none ↦ returns ([], r.1)
          | some a ↦ many rule f r.1 >>= λ s. returns (a ∷ s.0, s.1)
        ])
    go_on again (none, ts1) q =
        gives ([], ts1) (tt, subst (λ us. Within us ts) (sym q) (omega arith, e))
    go_on again (some a, ts1) (q, s) =
        >>=-Ensures (again ts1 s.1 (omega arith) (omega arith))
          (λ r (qs, w). gives (a ∷ r.0, r.1) ((q, qs), (omega arith, w.1)))

arg_definition-Safe : (n : ℕ) → Safe (λ _. Unit) n try_parse_arg_definition
unfolding try_parse_arg_definition same_type
arg_definition-Safe n ts e l =
    on_type-Safely TokenType.ident ts refl e (gives (none, ts) refl) (λ r s.
      >>=-Ensures (expect-Safely TokenType.colon r.1 s.1 refl) (λ r2 s2.
        >>=-Ensures (expect-Safely TokenType.ident r2.1 s2.1 refl) (λ r3 s3.
          gives (some (record { name = text r.0.1; type = from_string (text r3.0) }), r3.1)
            (tt, Shorter-trans r3.1 r2.1 ts s3 (Shorter-trans r2.1 r.1 ts s2 s)))))

pub try_parse_stmt-Safe : (f : ℕ) → Safe StatementIsParsed f (try_parse_stmt f)
unfolding try_parse_stmt try_parse_return_stmt same_type
try_parse_stmt-Safe f ts e l =
    on_type-Safely TokenType.keyword_return ts refl e (gives (none, ts) refl) (λ r s.
      on_type-Safely TokenType.semicolon r.1 refl s.1
        (>>=-Ensures
          (required-Safely IsParsed f (try_parse_expr f) r.1 (try_parse_expr-Safely f) s.1
            (omega arith))
          (λ r2 (p, s2). >>=-Ensures (expect-Safely TokenType.semicolon r2.1 s2.1 refl) (λ r3 s3.
            gives (some (return_statement (some r2.0)), r3.1)
              (p, Shorter-trans r3.1 r2.1 ts s3 (Shorter-trans r2.1 r.1 ts s2 s)))))
        (λ r2 s2. gives (some (return_statement none), r2.1) (tt, Shorter-trans r2.1 r.1 ts s2 s)))

skip_r_paren-Safely : (ts : Tokens) → Ends ts → Safely (λ ts1. Within ts1 ts) (skip_r_paren ts)
unfolding skip_r_paren same_type
skip_r_paren-Safely ts e =
    on_type-Safely TokenType.r_paren ts refl e (gives ts (omega arith, e))
      (λ r s. gives r.1 (omega arith, s.1))

parse_args-Safely :
    (f : ℕ) (ts : Tokens)
    → Ends ts
    → size ts < f
    → Safely (Keeps (λ (_ : List ArgDefinition). Unit) ts) (parse_args f ts)
unfolding parse_args same_type
parse_args-Safely zero ts e l = absurd (omega arith)
parse_args-Safely (suc f) ts e l =
    >>=-Ensures (arg_definition-Safe (suc f) ts e l)
      (go_on (λ ts1 e1 l1. parse_args-Safely f ts1 e1 l1))
  where
    go_on :
        (again : (ts1 : Tokens)
          → Ends ts1
          → size ts1 < f
          → Safely (Keeps (λ (_ : List ArgDefinition). Unit) ts1) (parse_args f ts1))
        (r : Option ArgDefinition × Tokens)
        → After (λ _. Unit) ts r
        → Safely (Keeps (λ (_ : List ArgDefinition). Unit) ts) (elim r.0 [
          | none ↦ skip_r_paren r.1 >>= λ ts2. returns ([], ts2)
          | some arg ↦ peek r.1 >>= λ t.
              if same_type t TokenType.comma
              then (take r.1 >>= λ r2. parse_args f r2.1 >>= λ r3. returns (arg ∷ r3.0, r3.1))
              else (skip_r_paren r.1 >>= λ ts2. returns (arg ∷ [], ts2))
        ])
    go_on again (none, ts1) q =
        >>=-Ensures (skip_r_paren-Safely ts1 (subst Ends (sym q) e))
          (λ ts2 w. gives ([], ts2) (tt, subst (λ us. Within ts2 us) q w))
    go_on again (some arg, ts1) (q, s) =
        on_type-Safely TokenType.comma ts1 refl s.1
          (>>=-Ensures (skip_r_paren-Safely ts1 s.1)
            (λ ts2 w. gives (arg ∷ [], ts2) (tt, (omega arith, w.1))))
          (λ r2 s2.
            >>=-Ensures (again r2.1 s2.1 (omega arith))
              (λ r3 (q3, w). gives (arg ∷ r3.0, r3.1) (tt, (omega arith, w.1))))

parse_return_type-Safely :
    (ts : Tokens) → Ends ts → Safely (Keeps (λ _. Unit) ts) (parse_return_type ts)
unfolding parse_return_type same_type
parse_return_type-Safely ts e =
    on_type-Safely TokenType.thin_arrow ts refl e (gives (void, ts) (tt, (omega arith, e))) (λ r s.
      >>=-Ensures (expect-Safely TokenType.ident r.1 s.1 refl)
        (λ r2 s2. gives (from_string (text r2.0), r2.1) (tt, (omega arith, s2.1))))

After-Keeps {ℓ} :
    {A : Type ℓ} (Q : A → Type 0) (ts : Tokens) (r : Option A × Tokens)
    → Ends ts
    → After Q ts r
    → Keeps (Optional Q) ts r
After-Keeps Q ts (none, rest) e h = (tt, subst (λ us. Within us ts) (sym h) (omega arith, e))
After-Keeps Q ts (some a, rest) e (q, s) = (q, (omega arith, s.1))

parse_body-Safely :
    (f : ℕ) (ts : Tokens)
    → Ends ts
    → size ts < f
    → Safely
        (Takes
          (λ (b : List Statement × Option Expression).
            All StatementIsParsed b.0 × Optional IsParsed b.1)
          ts)
        (parse_body f ts)
unfolding parse_body same_type
parse_body-Safely f ts e l =
    >>=-Ensures (expect-Safely TokenType.l_curly_bracket ts e refl) (λ r1 s1.
      >>=-Ensures
        (many-Safely StatementIsParsed f (try_parse_stmt f) f r1.1 (try_parse_stmt-Safe f) s1.1
          (omega arith) (omega arith))
        (λ r2 (qs, w2). >>=-Ensures (try_parse_expr-Safely f r2.1 w2.1 (omega arith)) (λ r3 a3.
          let (q, w3) = After-Keeps IsParsed r2.1 r3 w2.1 a3 in
          >>=-Ensures (expect-Safely TokenType.r_curly_bracket r3.1 w3.1 refl)
            (λ r4 s4. gives ((r2.0, r3.0), r4.1) ((qs, q), (omega arith, s4.1))))))

pub try_parse_top_level_decl-Safe : (f : ℕ) → Safe FunctionIsParsed f (try_parse_top_level_decl f)
unfolding try_parse_top_level_decl try_parse_function_definition same_type
try_parse_top_level_decl-Safe f ts e l =
    on_type-Safely TokenType.keyword_fn ts refl e (gives (none, ts) refl) (λ r1 s1.
      >>=-Ensures (expect-Safely TokenType.ident r1.1 s1.1 refl) (λ r2 s2.
        >>=-Ensures (expect-Safely TokenType.l_paren r2.1 s2.1 refl) (λ r3 s3.
          >>=-Ensures (parse_args-Safely f r3.1 s3.1 (omega arith)) (λ r4 (_, w4).
            >>=-Ensures (parse_return_type-Safely r4.1 w4.1) (λ r5 (_, w5).
              >>=-Ensures (parse_body-Safely f r5.1 w5.1 (omega arith))
                (λ r6 (b, s6). gives (some _, r6.1) (b, (omega arith, s6.1))))))))

-- On fewer tokens than the fuel, where the lexer ends, the parse of `AST::AST` comes to an end: it
-- throws, or it returns definitions in whose trees literals have sized integer types and 32-bit values
-- and no other node a type or a symbol.
pub parse-Safely :
    (f : ℕ) (ts : Tokens) → Ends ts → size ts < f → Safely (All FunctionIsParsed) (parse f ts)
unfolding parse
parse-Safely f ts e l =
    >>=-Ensures
      (many-Safely FunctionIsParsed f (try_parse_top_level_decl f) f ts
        (try_parse_top_level_decl-Safe f) e l l)
      (λ r (qs, w).
        >>=-Ensures (expect-terminates TokenType.end_of_file r.1 w.1) (λ _ _. gives r.0 qs))

-- The constructor of `AST` comes to an end: where the lexer ends and gives fewer tokens than the fuel,
-- parsing and semantic analysis throw or return.
pub build-terminates : (f : ℕ) (ts : Tokens) → Ends ts → size ts < f → build f ts ≢ out_of_fuel
unfolding build
build-terminates f ts e l = Ensures-ends (
    >>=-Ensures (parse-Safely f ts e l)
      (λ tlds _. lift-Safely {P = λ _. Unit} (analyse tlds) (λ _ _. tt)))
