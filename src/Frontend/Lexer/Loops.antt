-- ===== src/Frontend/Lexer/Loops.antt =====
-- `take` of frontend/Lexer.cpp on a comment at the end of the file.
use sasc.Prelude.{ℕ, zero, suc, ◌≡◌, ◌≢◌, refl, true, none, List, [], ◌∷◌, All, arith}
use sasc.Frontend.Outcome.{out_of_fuel}
use sasc.Frontend.Token.{SourceLoc}
use sasc.Frontend.Lexer.{advance, take_char, peek_char, skip_line, take_fresh, take}
use sasc.Frontend.Lexer.Reads.{at}
use Prim.Native.Char.{Char, code}

-- No character is a newline.
abbrev pub OneLine : List Char → Type 0
OneLine cs = All (λ c. code c ≢ b'\n') cs

skip_line-done :
    (f : ℕ) (q : SourceLoc)
    → skip_line f (record { unread = []; done = true; peeked_token = none; pos = q }) ≡ out_of_fuel
unfolding skip_line take_char
skip_line-done zero q = refl
skip_line-done (suc f) q = skip_line-done f q

skip_line-OneLine :
    (f : ℕ) (cs : List Char) (q : SourceLoc) → OneLine cs → skip_line f (at cs q) ≡ out_of_fuel
unfolding skip_line take_char
skip_line-OneLine zero cs q h = refl
skip_line-OneLine (suc f) [] q h = skip_line-done f q
skip_line-OneLine (suc f) (c ∷ cs) q (n, h) =
    let ih = skip_line-OneLine f cs (advance c q) h in ground arith

-- On a comment that ends with the file and not with a newline, `take` returns on no amount of fuel: at
-- the end of the input `take_char` returns the end of file each time, and the loop waits for a newline.
pub take-OneLine :
    (f : ℕ) (cs : List Char) (q : SourceLoc)
    → OneLine cs
    → take f (at ("/" ∷ "/" ∷ cs) q) ≡ out_of_fuel
unfolding take take_fresh take_char peek_char
take-OneLine zero cs q h = refl
take-OneLine (suc f) cs q h =
    rw (skip_line-OneLine f ("/" ∷ cs) (advance "/" q) ((λ e. omega arith), h)) refl
