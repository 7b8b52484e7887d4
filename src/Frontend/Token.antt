-- ===== src/Frontend/Token.antt =====
-- `TokenType`, `Token` and the source locations of frontend/Lexer.hpp and utils/common.hpp, and the
-- tests on characters of utils/common.cpp. A character is a byte, read as the code point of that
-- number; a `char` is signed, so that none from 128 on passes a test.
use sasc.Prelude.{ℕ, Bool, not, ◌&&◌, ◌||◌, List, [], ◌∷◌, String, leb, ◌==◌}
use sasc.Error.{unimplemented, syntax_error, Result, ok, err, ◌>>=◌}
use Prim.Native.String.{◌++◌ as str_append}
use Prim.Native.Char.{Char, code}

pub data TokenType : Type 0 where
  end_of_file ident int_literal keyword_true keyword_false keyword_fn keyword_return : TokenType
  colon semicolon l_paren r_paren l_sqr_bracket r_sqr_bracket : TokenType
  l_curly_bracket r_curly_bracket comma thin_arrow : TokenType
  and and_and or or_or caret less_less greater_greater : TokenType
  equal_equal exclamation_equal less less_equal greater greater_equal : TokenType
  plus minus asterisk forward_slash percent exclamation equal tilde : TokenType
  error_unexpected_char : TokenType

-- The enumeration's values, in its order, and `==` on them.
unfoldable pub ordinal : TokenType → ℕ
ordinal end_of_file = 0
ordinal ident = 1
ordinal int_literal = 2
ordinal keyword_true = 3
ordinal keyword_false = 4
ordinal keyword_fn = 5
ordinal keyword_return = 6
ordinal colon = 7
ordinal semicolon = 8
ordinal l_paren = 9
ordinal r_paren = 10
ordinal l_sqr_bracket = 11
ordinal r_sqr_bracket = 12
ordinal l_curly_bracket = 13
ordinal r_curly_bracket = 14
ordinal comma = 15
ordinal thin_arrow = 16
ordinal and = 17
ordinal and_and = 18
ordinal or = 19
ordinal or_or = 20
ordinal caret = 21
ordinal less_less = 22
ordinal greater_greater = 23
ordinal equal_equal = 24
ordinal exclamation_equal = 25
ordinal less = 26
ordinal less_equal = 27
ordinal greater = 28
ordinal greater_equal = 29
ordinal plus = 30
ordinal minus = 31
ordinal asterisk = 32
ordinal forward_slash = 33
ordinal percent = 34
ordinal exclamation = 35
ordinal equal = 36
ordinal tilde = 37
ordinal error_unexpected_char = 38

unfoldable pub same_type : TokenType → TokenType → Bool
unfolding ordinal
same_type t u = ordinal t == ordinal u

abbrev pub chars : String → List Char
chars String.[] = []
chars (String.◌∷◌ c s) = c ∷ chars s

abbrev pub text : List Char → String
text [] = String.[]
text (c ∷ cs) = String.◌∷◌ c (text cs)

-- `to_string` has no case for `true` and `false`.
unfoldable pub to_string : TokenType → Result String
to_string end_of_file = ok "EOF"
to_string ident = ok "identifier"
to_string int_literal = ok "integer literal"
to_string keyword_fn = ok "keyword \"fn\""
to_string keyword_return = ok "keyword \"return\""
to_string colon = ok "\":\""
to_string semicolon = ok "\";\""
to_string l_paren = ok "\"(\""
to_string r_paren = ok "\")\""
to_string l_sqr_bracket = ok "\"[\""
to_string r_sqr_bracket = ok "\"]\""
to_string l_curly_bracket = ok "\"{\""
to_string r_curly_bracket = ok "\"}\""
to_string comma = ok "\",\""
to_string thin_arrow = ok "\"->\""
to_string and = ok "\"&\""
to_string and_and = ok "\"&&\""
to_string or = ok "\"|\""
to_string or_or = ok "\"||\""
to_string caret = ok "\"^\""
to_string less_less = ok "\"<<\""
to_string greater_greater = ok "\">>\""
to_string equal_equal = ok "\"==\""
to_string exclamation_equal = ok "\"!=\""
to_string less = ok "\"<\""
to_string less_equal = ok "\"<=\""
to_string greater = ok "\">\""
to_string greater_equal = ok "\">=\""
to_string plus = ok "\"+\""
to_string minus = ok "\"-\""
to_string asterisk = ok "\"*\""
to_string forward_slash = ok "\"/\""
to_string percent = ok "\"%\""
to_string exclamation = ok "\"!\""
to_string equal = ok "\"=\""
to_string tilde = ok "\"~\""
to_string error_unexpected_char = ok "Unexpected char"
to_string keyword_true = err unimplemented
to_string keyword_false = err unimplemented

-- `to_string` of a token, with its text.
unfoldable pub token_to_string : TokenType → List Char → Result String
unfolding to_string
token_to_string ident str = ok (str_append "identifier \"" (str_append (text str) "\""))
token_to_string int_literal str = ok (str_append "integer literal \"" (str_append (text str) "\""))
token_to_string keyword_fn str = ok "keyword \"fn\""
token_to_string keyword_return str = ok "keyword \"return\""
token_to_string error_unexpected_char str =
    ok (str_append "unexpected \"" (str_append (text str) "\""))
token_to_string type str = to_string type

-- What is thrown for a token where another is expected: the text of the message is made first.
unfoldable pub unexpected : TokenType → List Char → TokenType → Result (Unit {0})
unfolding to_string token_to_string
unexpected type str expected = do
  _ ← token_to_string type str
  _ ← to_string expected
  err syntax_error

pub record SourceLoc : Type 0 where
  pub line : ℕ
  pub col : ℕ

pub record SourceLocRange : Type 0 where
  pub start : SourceLoc
  pub end : SourceLoc

-- `str` is empty but for identifiers, literals and unexpected characters.
pub record Token : Type 0 where
  pub loc : SourceLocRange
  pub str : List Char
  pub type : TokenType

-- `std::char_traits<char>::eof()` as a `char`: the byte 255.
abbrev pub eof : Char
eof = "ÿ"

unfoldable pub is_whitespace : Char → Bool
is_whitespace c = (leb 9 (code c) && leb (code c) 13) || code c == 32

unfoldable pub is_numeric : Char → Bool
is_numeric c = leb b'0' (code c) && leb (code c) b'9'

unfoldable pub is_alpha : Char → Bool
is_alpha c = (leb b'a' (code c) && leb (code c) b'z') || (leb b'A' (code c) && leb (code c) b'Z')

unfoldable pub is_delimiter : Char → Bool
unfolding is_numeric is_alpha
is_delimiter c = not (is_numeric c) && not (is_alpha c) && not (code c == b'_')
