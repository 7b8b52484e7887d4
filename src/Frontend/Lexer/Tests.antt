-- ===== src/Frontend/Lexer/Tests.antt =====
-- Words lexed at a concrete input.
use sasc.Prelude.{◌≡◌, refl, arith, List, ◌∷◌, ◌++◌}
use sasc.Frontend.Outcome.{returns}
use sasc.Frontend.Token.{TokenType, SourceLoc, is_delimiter, chars}
use Prim.Native.Char.{Char}
use sasc.Frontend.Lexer.{take}
use sasc.Frontend.Lexer.Reads.{at}
use sasc.Frontend.Lexer.Words.{Spells, take-word}

abbrev start : SourceLoc
start = record { line = 0; col = 0 }

-- `return;`.
take-word_example :
    (t : TokenType) × (str : List Char) × Spells (chars "return") t str
    × (take 9 (at ("r" ∷ (chars "eturn" ++ chars ";")) start)
        ≡ returns (
          record {
            loc = record { start = start; end = record { line = 0; col = 6 } };
            str = str;
            type = t;
          },
          at (chars ";") (record { line = 0; col = 6 }),
        ))
unfolding is_delimiter
take-word_example =
    take-word 8 "r" (chars "eturn") (chars ";") start refl
      (refl, (refl, (refl, (refl, (refl, tt))))) refl (omega arith)
