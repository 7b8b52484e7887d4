-- ===== src/Frontend/Parser/Safe/Source.antt =====
-- Lexer, parser and analysis on a source file of whole lines.
use sasc.Prelude.{
  ℕ, zero, suc, ◌<◌, ◌≤◌, ◌≢◌, inl, inr, sym, Bool-cases, arith, List, length, subst, if◌then◌else◌,
}
use sasc.Frontend.Outcome.{Outcome, out_of_fuel, throws, returns, Surely}
use sasc.Frontend.Token.{end_of_file, same_type, SourceLoc, Token}
use sasc.Frontend.Lexer
use sasc.Frontend.Lexer.{Lexer}
use sasc.Frontend.Lexer.Reads.{at, WholeLines, Reads-WholeLines}
use sasc.Frontend.Lexer.Ends.{Taken, take-Surely}
use sasc.Frontend.Parser.Stream.{Tokens, ended, next, tokens, Ends, size}
use sasc.Frontend.Parser.{build_source}
use sasc.Frontend.Parser.Safe.Decl.{build-terminates}
use Prim.Native.Char.{Char}

abbrev Few : ℕ → Tokens → Type 0
Few n ts = Ends ts × (size ts ≤ n)

abbrev after_take : ℕ → Outcome (Token × Lexer) → Tokens
after_take f out_of_fuel = Tokens.diverges
after_take f (throws e) = Tokens.diverges
after_take f (returns (tok, l)) =
    let rest = tokens f l in
    if same_type tok.type end_of_file then ended else next tok.type tok.str rest

-- A file that is whole lines gives tokens that come to an end, no more than it has characters.
pub tokens-Ends :
    (f : ℕ) (cs : List Char) (q : SourceLoc)
    → WholeLines cs
    → length cs < f
    → Few (length cs) (tokens f (at cs q))
unfolding tokens size same_type
tokens-Ends zero cs q w k = absurd (omega arith)
tokens-Ends (suc f) cs q w k =
    go_on (λ ds p v b. tokens-Ends f ds p v b) (Lexer.take (suc f) (at cs q))
      (take-Surely (suc f) cs q w k)
  where
    go_on :
        (again : (ds : List Char) (p : SourceLoc)
          → WholeLines ds
          → length ds < f
          → Few (length ds) (tokens f (at ds p)))
        (o : Outcome (Token × Lexer))
        → Surely (Taken cs q) o
        → Few (length cs) (after_take f o)
    go_on again out_of_fuel h = absurd h.as_said
    go_on again (throws e) h = absurd h.as_said
    go_on again (returns (tok, l)) h = elim h.as_said [
      | inl (e, _) ↦ rw (e, tokens) (tt, omega arith)
      | inr (r, b, _, _) ↦
          let rest : Few (length l.unread) (tokens f l) =
            subst (λ m. Few (length l.unread) (tokens f m)) (sym r.running)
              (again l.unread l.pos (Reads-WholeLines r w) (omega arith)) in
          elim (Bool-cases (same_type tok.type end_of_file)) [
            | inl e ↦ rw (e, tokens) (tt, omega arith)
            | inr e ↦ rw (e, tokens) (rest.0, omega (arith, rest.1))
          ]
    ]

-- On a source file of whole lines the constructor of `AST` comes to an end: lexing, parsing and
-- semantic analysis throw or return.
pub build_source-terminates : (cs : List Char) → WholeLines cs → build_source cs ≢ out_of_fuel
unfolding build_source
build_source-terminates cs w =
    let f = suc (length cs) in
    let start : SourceLoc = record { line = 0; col = 0 } in
    let few = tokens-Ends f cs start w (omega arith) in
    build-terminates f (tokens f (at cs start)) few.0 (omega (arith, few.1))
