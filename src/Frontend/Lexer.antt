-- ===== src/Frontend/Lexer.antt =====
-- `Lexer` of frontend/Lexer.cpp. `unread` is what the stream still holds. The loops and the calls of
-- `take` in itself run on fuel.
pub mod Reads
pub mod Ends
pub mod Loops
pub mod Peek
pub mod Words
mod Tests
use sasc.Prelude.{
  ℕ, zero, suc, ◌+◌, ◌%◌, ◌^◌, Bool, true, false, not, ◌&&◌, ◌||◌, Option, none, some, List, [],
  ◌∷◌, ◌==◌, if◌then◌else◌,
}
use sasc.Error.{syntax_error}
use sasc.Frontend.Outcome.{Outcome, out_of_fuel, throws, returns, ◌>>=◌, lift}
use sasc.Frontend.Token.{
  TokenType, end_of_file, ident, int_literal, keyword_true, keyword_false, keyword_fn,
  keyword_return, semicolon, l_paren, r_paren, l_sqr_bracket, r_sqr_bracket, l_curly_bracket,
  r_curly_bracket, comma, thin_arrow, and, and_and, or, or_or, caret, less_less, greater_greater,
  equal_equal, exclamation_equal, less, less_equal, greater, greater_equal, plus, minus, asterisk,
  forward_slash, percent, exclamation, equal, tilde, error_unexpected_char, SourceLoc, Token, text,
  eof, is_whitespace, is_numeric, is_alpha, is_delimiter, same_type, unexpected,
}
use Prim.Native.Char.{Char, code}
use package.text.Mathlib.Text.{◌==◌ as str_eq}

pub record Lexer : Type 0 where
  pub unread : List Char
  pub done : Bool
  pub peeked_token : Option Token
  pub pos : SourceLoc

-- The constructor.
abbrev pub make_lexer : List Char → Lexer
make_lexer input = record {
  unread = input;
  done = false;
  peeked_token = none;
  pos = record { line = 0; col = 0 };
}

-- The position behind a character, in `unsigned int`.
abbrev pub advance : Char → SourceLoc → SourceLoc
advance c p =
    if code c == b'\n'
    then record { line = (p.line + 1) % 2 ^ 32; col = 0 }
    else record p { col = (p.col + 1) % 2 ^ 32 }

-- `in.get()` and what follows it.
abbrev pub get_char : List Char → Lexer → Char × Lexer
get_char [] l = (eof, record l { done = true })
get_char (c ∷ cs) l = (c, record l { unread = cs; pos = advance c l.pos })

unfoldable pub take_char : Lexer → Char × Lexer
take_char l = if l.done then (eof, l) else get_char l.unread l

abbrev pub first_or_eof : List Char → Char
first_or_eof [] = eof
first_or_eof (c ∷ _) = c

unfoldable pub peek_char : Lexer → Char
peek_char l = first_or_eof l.unread

-- `while (take_char() != '\n');`
unfoldable pub skip_line : ℕ → Lexer → Outcome Lexer
unfolding take_char
skip_line zero l = out_of_fuel
skip_line (suc f) l =
    let (c, l1) = take_char l in
    let rest = skip_line f l1 in if code c == b'\n' then returns l1 else rest

-- `while (is_whitespace(peek_char())) take_char();`
unfoldable pub skip_whitespace : ℕ → Lexer → Outcome Lexer
unfolding take_char peek_char is_whitespace
skip_whitespace zero l = out_of_fuel
skip_whitespace (suc f) l =
    let rest = skip_whitespace f (take_char l).1 in
    if is_whitespace (peek_char l) then rest else returns l

-- `while (!is_delimiter(peek_char())) token_str += take_char();`
unfoldable pub take_word : ℕ → Lexer → Outcome (List Char × Lexer)
unfolding take_char peek_char is_delimiter
take_word zero l = out_of_fuel
take_word (suc f) l =
    let (c, l1) = take_char l in
    let more : Outcome (List Char × Lexer) = do (cs, l2) ← take_word f l1; returns (c ∷ cs, l2)
    in if is_delimiter (peek_char l) then returns ([], l) else more

-- The token of a character and the one behind it, and whether it takes both.
unfoldable pub symbol : ℕ → ℕ → Option (TokenType × Bool)
symbol c next =
    if c == b';'
    then some (semicolon, false)
    else if c == b'('
    then some (l_paren, false)
    else if c == b')'
    then some (r_paren, false)
    else if c == b'['
    then some (l_sqr_bracket, false)
    else if c == b']'
    then some (r_sqr_bracket, false)
    else if c == b'{'
    then some (l_curly_bracket, false)
    else if c == b'}'
    then some (r_curly_bracket, false)
    else if c == b','
    then some (comma, false)
    else if c == b'&'
    then some (if next == b'&' then (and_and, true) else (and, false))
    else if c == b'|'
    then some (if next == b'|' then (or_or, true) else (or, false))
    else if c == b'^'
    then some (caret, false)
    else if c == b'~'
    then some (tilde, false)
    else if c == b'<'
    then some (
        if next == b'<'
        then (less_less, true)
        else if next == b'='
        then (less_equal, true)
        else (less, false))
    else if c == b'>'
    then some (
        if next == b'>'
        then (greater_greater, true)
        else if next == b'='
        then (greater_equal, true)
        else (greater, false))
    else if c == b'='
    then some (if next == b'=' then (equal_equal, true) else (equal, false))
    else if c == b'!'
    then some (if next == b'=' then (exclamation_equal, true) else (exclamation, false))
    else if c == b'+'
    then some (plus, false)
    else if c == b'-'
    then some (if next == b'>' then (thin_arrow, true) else (minus, false))
    else if c == b'*'
    then some (asterisk, false)
    else if c == b'/'
    then some (forward_slash, false)
    else if c == b'%'
    then some (percent, false)
    else none

-- The type of a word, and the text that its token keeps.
unfoldable pub word_type : Char → List Char → TokenType × List Char
unfolding is_numeric
word_type c cs =
    if is_numeric c
    then (int_literal, c ∷ cs)
    else if str_eq (text (c ∷ cs)) "true"
    then (keyword_true, [])
    else if str_eq (text (c ∷ cs)) "false"
    then (keyword_false, [])
    else if str_eq (text (c ∷ cs)) "fn"
    then (keyword_fn, [])
    else if str_eq (text (c ∷ cs)) "return"
    then (keyword_return, [])
    else (ident, c ∷ cs)

-- `tok.loc.end = pos; return tok;`
abbrev pub finish : SourceLoc → TokenType → List Char → Lexer → Outcome (Token × Lexer)
finish start type str l =
    returns (record { loc = record { start = start; end = l.pos }; str = str; type = type }, l)

-- The `default` case; `again` is the call of `take` in itself.
unfoldable pub take_other :
    (Lexer → Outcome (Token × Lexer)) → ℕ → SourceLoc → Char → Lexer → Outcome (Token × Lexer)
unfolding skip_whitespace take_word word_type is_whitespace is_numeric is_alpha
take_other again f start c l =
    let skipped = skip_whitespace f l >>= again in
    let word : Outcome (Token × Lexer) = do
      (cs, l1) ← take_word f l
      finish start (word_type c cs).0 (word_type c cs).1 l1
    in if is_whitespace c
      then skipped
      else if is_numeric c || is_alpha c || code c == b'_'
      then word
      else finish start error_unexpected_char (c ∷ []) l

-- `take` where no token was peeked at: the switch.
unfoldable pub take_fresh : (Lexer → Outcome (Token × Lexer)) → ℕ → Lexer → Outcome (Token × Lexer)
unfolding take_char peek_char skip_line symbol take_other
take_fresh again f l =
    let start = l.pos in
    let (c, l1) = take_char l in
    let comment = skip_line f l1 >>= again in
    if code c == code eof
    then finish start end_of_file [] l1
    else if code c == b'/' && code (peek_char l1) == b'/'
    then comment
    else elim (symbol (code c) (code (peek_char l1))) [
      | some (type, two) ↦ finish start type [] (if two then (take_char l1).1 else l1)
      | none ↦ take_other again f start c l1
    ]

unfoldable pub take : ℕ → Lexer → Outcome (Token × Lexer)
unfolding take_fresh
take zero l = out_of_fuel
take (suc f) l = elim l.peeked_token [
  | some tok ↦ returns (tok, record l { peeked_token = none })
  | none ↦ take_fresh (take f) f l
]

unfoldable pub peek : ℕ → Lexer → Outcome (Token × Lexer)
unfolding take
peek f l = elim l.peeked_token [
  | some tok ↦ returns (tok, l)
  | none ↦ do (tok, l1) ← take f l; returns (tok, record l1 { peeked_token = some tok })
]

unfoldable pub expect : TokenType → ℕ → Lexer → Outcome (Token × Lexer)
unfolding take same_type unexpected
expect expected f l = do
  (tok, l1) ← take f l
  if same_type tok.type expected
      then returns (tok, l1)
      else (lift (unexpected tok.type tok.str expected) >>= λ _. throws syntax_error)
