-- ===== src/Frontend/Parser/Stream.antt =====
-- What the parser of frontend/Parser.cpp sees of the lexer: the types and texts of the tokens that
-- successive calls of `take` give. At its end the lexer gives END_OF_FILE each time; or it does not
-- return.
use sasc.Prelude.{ℕ, zero, suc, Option, List, [], if◌then◌else◌}
use sasc.Error.{syntax_error}
use sasc.Frontend.Outcome.{Outcome, out_of_fuel, throws, returns, ◌>>=◌, lift}
use sasc.Frontend.Token.{TokenType, end_of_file, same_type, unexpected}
use sasc.Frontend.Lexer.{Lexer}
use sasc.Frontend.Lexer
use Prim.Native.Char.{Char}

pub data Tokens : Type 0 where
  ended : Tokens
  diverges : Tokens
  next : TokenType → List Char → Tokens → Tokens

-- The tokens of a lexer, on fuel for the calls of `take` and for each of them.
unfoldable pub tokens : ℕ → Lexer → Tokens
unfolding Lexer.take same_type
tokens zero l = diverges
tokens (suc f) l = elim (Lexer.take (suc f) l) [
  | out_of_fuel ↦ diverges
  | throws e ↦ diverges
  | returns (tok, l1) ↦
      let rest = tokens f l1 in
      if same_type tok.type end_of_file then ended else next tok.type tok.str rest
]

unfoldable pub peek : Tokens → Outcome TokenType
peek ended = returns end_of_file
peek diverges = out_of_fuel
peek (next t s ts) = returns t

unfoldable pub take : Tokens → Outcome ((TokenType × List Char) × Tokens)
take ended = returns ((end_of_file, []), ended)
take diverges = out_of_fuel
take (next t s ts) = returns ((t, s), ts)

-- `expect`, with the text of the token.
unfoldable pub expect : TokenType → Tokens → Outcome (List Char × Tokens)
unfolding take same_type unexpected
expect expected ts = do
  ((t, s), ts1) ← take ts
  if same_type t expected
      then returns (s, ts1)
      else (lift (unexpected t s expected) >>= λ _. throws syntax_error)

-- A parsing function: `none` where the rule does not match.
abbrev pub Parser {ℓ} : Type ℓ → Type ℓ
Parser A = Tokens → Outcome (Option A × Tokens)

-- The tokens do not run into a loop of the lexer.
abbrev pub Ends : Tokens → Type 0
Ends ended = Unit
Ends diverges = ⊥
Ends (next t s ts) = Ends ts

unfoldable pub size : Tokens → ℕ
size ended = 0
size diverges = 0
size (next t s ts) = suc (size ts)
