-- ===== src/Frontend/Lexer/Words.antt =====
-- Words in `take` of frontend/Lexer.cpp: letters, digits and underscores, and the token that each spells.
use sasc.Prelude.{
  ℕ, zero, suc, ◌<◌, ◌≡◌, ◌≢◌, refl, Bool, true, false, Option, none, some, arith, List, [], ◌∷◌,
  ◌++◌, length, All, ◌==◌, ◌&&◌, ◌||◌, if◌then◌else◌, ◌≤◌, ◌⊎◌, inl, inr, sym, ◌∙◌, subst,
  Bool-cases, true-not-false,
}
use sasc.Frontend.Outcome.{Outcome, returns}
use sasc.Frontend.Token.{
  TokenType, SourceLoc, Token, eof, is_whitespace, is_numeric, is_alpha, is_delimiter, chars, text,
}
use sasc.Frontend.Lexer.{
  Lexer, advance, first_or_eof, take_char, peek_char, take_word, symbol, word_type, finish,
  take_other, take_fresh, take,
}
use sasc.Frontend.Lexer.Reads.{at, walk}
use sasc.Cli.Text.{same_text, same_text-eq, same_text_refl}
use package.text.Mathlib.Text.{◌==◌ as str_eq}
use Prim.Native.Char.{Char, code}

-- A character of a word.
abbrev pub InWord : Char → Type 0
InWord c = is_delimiter c ≡ false

-- The token that a word spells: a keyword without a text, a number, which begins with a digit, or a name,
-- which does not and is no keyword.
pub data Spells (w : List Char) : TokenType → List Char → Type 0 where
  true_word : w ≡ chars "true" → Spells w TokenType.keyword_true []
  false_word : w ≡ chars "false" → Spells w TokenType.keyword_false []
  fn_word : w ≡ chars "fn" → Spells w TokenType.keyword_fn []
  return_word : w ≡ chars "return" → Spells w TokenType.keyword_return []
  number_word :
      (48 ≤ code (first_or_eof w)) × (code (first_or_eof w) ≤ 57) → Spells w TokenType.int_literal w
  name_word :
      (code (first_or_eof w) < 48) ⊎ (57 < code (first_or_eof w))
      → w ≢ chars "true"
      → w ≢ chars "false"
      → w ≢ chars "fn"
      → w ≢ chars "return"
      → Spells w TokenType.ident w

same-eq : (w n : List Char) → str_eq (text w) (text n) ≡ true → w ≡ n
same-eq w n h = same_text-eq w n (unfold same_text in h)

differs : (w n : List Char) → str_eq (text w) (text n) ≡ false → w ≢ n
differs w n h e = true-not-false (
    sym (subst (λ v. str_eq (text w) (text v) ≡ true) e (unfold same_text in same_text_refl w)) ∙ h)

word_type-Spells :
    (c : Char) (cs : List Char) → Spells (c ∷ cs) (word_type c cs).0 (word_type c cs).1
unfolding word_type is_numeric
word_type-Spells c cs = elim (Bool-cases (is_numeric c)) [
  | inl n ↦ rw n (number_word (ground arith))
  | inr n ↦
      let first : (code c < 48) ⊎ (57 < code c) = ground arith in
      elim (Bool-cases (str_eq (text (c ∷ cs)) "true")) [
        | inl e ↦ rw (n, e) (true_word (same-eq (c ∷ cs) (chars "true") e))
        | inr t ↦ elim (Bool-cases (str_eq (text (c ∷ cs)) "false")) [
          | inl e ↦ rw (n, t, e) (false_word (same-eq (c ∷ cs) (chars "false") e))
          | inr f ↦ elim (Bool-cases (str_eq (text (c ∷ cs)) "fn")) [
            | inl e ↦ rw (n, t, f, e) (fn_word (same-eq (c ∷ cs) (chars "fn") e))
            | inr g ↦ elim (Bool-cases (str_eq (text (c ∷ cs)) "return")) [
              | inl e ↦ rw (n, t, f, g, e) (return_word (same-eq (c ∷ cs) (chars "return") e))
              | inr r ↦
                  rw (n, t, f, g, r)
                    (name_word first (differs (c ∷ cs) (chars "true") t)
                      (differs (c ∷ cs) (chars "false") f) (differs (c ∷ cs) (chars "fn") g)
                      (differs (c ∷ cs) (chars "return") r))
            ]
          ]
        ]
      ]
]

-- The text ends, or goes on with a delimiter.
abbrev pub WordEnds : List Char → Type 0
WordEnds rest = is_delimiter (first_or_eof rest) ≡ true

take_word-whole :
    (f : ℕ) (ws rest : List Char) (q : SourceLoc)
    → All InWord ws
    → WordEnds rest
    → length ws < f
    → take_word f (at (ws ++ rest) q) ≡ returns (ws, at rest (walk ws q))
unfolding take_word take_char peek_char
take_word-whole zero ws rest q h e b = absurd (omega arith)
take_word-whole (suc f) [] rest q h e b = rw e refl
take_word-whole (suc f) (w ∷ ws) rest q (h, hs) e b =
    rw (h, take_word-whole f ws rest (advance w q) hs e (omega arith)) refl

word-plain :
    (c : Char) → InWord c → (code c ≢ code eof) × (code c ≢ b'/') × (is_whitespace c ≡ false)
unfolding is_delimiter is_numeric is_alpha is_whitespace
word-plain c h = (λ e. ground arith, λ e. ground arith, ground arith)

word-symbol : (c : Char) (next : ℕ) → InWord c → symbol (code c) next ≡ none
unfolding is_delimiter is_numeric is_alpha symbol
word-symbol c next h = ground arith

word-start : (c : Char) → InWord c → (is_numeric c || is_alpha c || code c == b'_') ≡ true
unfolding is_delimiter
word-start c h = ground arith

take_other-word :
    (again : Lexer → Outcome (Token × Lexer)) (f : ℕ) (c : Char) (ws rest : List Char)
    (q : SourceLoc)
    → InWord c
    → All InWord ws
    → WordEnds rest
    → length ws < f
    → take_other again f q c (at (ws ++ rest) (advance c q))
      ≡ finish q (word_type c ws).0 (word_type c ws).1 (at rest (walk ws (advance c q)))
unfolding take_other
take_other-word again f c ws rest q h hs e b =
    let (_, _, plain) = word-plain c h in
    let start = word-start c h in
    let taken = take_word-whole f ws rest (advance c q) hs e b in rw (plain, start, taken) refl

-- The last case of the switch.
default_case :
    (a b d : Bool) (s : Option (TokenType × Bool)) (x y w r : Outcome (Token × Lexer))
    (z : TokenType × Bool → Outcome (Token × Lexer))
    → a ≡ false
    → b ≡ false
    → s ≡ none
    → w ≡ r
    → (if a
        then x
        else if b && d
        then y
        else elim s as (λ _. Outcome (Token × Lexer)) [ some t ↦ z t | none ↦ w ])
      ≡ r
default_case a b d s x y w r z h k e p = rw (h, k, e) p

-- A word is lexed whole: where letters, digits and underscores are followed by a delimiter or the end of
-- the input, `take` gives one token, the keyword, number or name that they spell, located over all of
-- them, and stands behind them.
pub take-word :
    (f : ℕ) (c : Char) (ws rest : List Char) (q : SourceLoc)
    → InWord c
    → All InWord ws
    → WordEnds rest
    → length ws < f
    → (t : TokenType) × (str : List Char) × Spells (c ∷ ws) t str
      × (take (suc f) (at (c ∷ (ws ++ rest)) q)
          ≡ returns (
            record { loc = record { start = q; end = walk (c ∷ ws) q }; str = str; type = t },
            at rest (walk (c ∷ ws) q),
          ))
unfolding take take_fresh take_char
take-word f c ws rest q h hs e b = (
  (word_type c ws).0,
  (word_type c ws).1,
  word_type-Spells c ws,
  let (no_eof, no_slash, _) = word-plain c h in
      let not_eof : (code c == code eof) ≡ false = ground arith in
      let not_slash : (code c == b'/') ≡ false = ground arith in
      let none_of_them = word-symbol c (code (peek_char (at (ws ++ rest) (advance c q)))) h in
      default_case (code c == code eof) (code c == b'/')
        (code (peek_char (at (ws ++ rest) (advance c q))) == b'/')
        (symbol (code c) (code (peek_char (at (ws ++ rest) (advance c q))))) _ _ _ _ _ not_eof
        not_slash none_of_them (take_other-word (take f) f c ws rest q h hs e b),
)
