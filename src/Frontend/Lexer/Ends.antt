-- ===== src/Frontend/Lexer/Ends.antt =====
-- `take` of frontend/Lexer.cpp on a source of whole lines.
use sasc.Prelude.{
  ℕ, zero, suc, ◌<◌, ◌≡◌, ◌≢◌, ◌⊎◌, inl, inr, refl, sym, Bool, true, false, some, arith, List, [],
  ◌∷◌, length, subst, All, ◌++◌, if◌then◌else◌, ◌==◌, ◌&&◌, ◌||◌,
}
use sasc.Frontend.Outcome.{
  Outcome, ◌>>=◌, Surely, gives, >>=-Ensures, if-Ensures, elim-Ensures, Ensures-weaken,
}
use sasc.Frontend.Token.{
  TokenType, end_of_file, SourceLoc, Token, eof, is_whitespace, is_numeric, is_alpha,
}
use sasc.Frontend.Lexer.{
  Lexer, advance, take_char, peek_char, skip_line, symbol, finish, word_type, take_other,
  take_fresh, take,
}
use sasc.Frontend.Lexer.Reads.{
  at, WholeLines, Reads, Reads-one, Reads-trans, Reads-length, Reads-WholeLines, skip_line-Surely,
  skip_whitespace-Surely, take_word-Surely,
}
use Prim.Native.Char.{Char, code}

-- No byte of the source is the one that stands for the end of the input.
abbrev pub NoEof : List Char → Type 0
NoEof cs = All (λ c. code c ≢ code eof) cs

NoEof-drop : (as_ bs : List Char) → NoEof (as_ ++ bs) → NoEof bs
NoEof-drop [] bs h = h
NoEof-drop (a ∷ as_) bs (_, h) = NoEof-drop as_ bs h

Reads-NoEof :
    {cs : List Char} {q : SourceLoc} {l : Lexer} → Reads cs q l → NoEof cs → NoEof l.unread
Reads-NoEof {l = l} r h = NoEof-drop r.taken l.unread (subst NoEof r.split h)

-- Either the end of the file, where all is read, or a token for which some of the source is read and
-- whose location ends where the lexer stands.
abbrev pub Taken : List Char → SourceLoc → Token × Lexer → Type 0
Taken cs q (tok, l) =
    ((tok.type ≡ end_of_file) × (NoEof cs → l.unread ≡ []))
    ⊎ (Reads cs q l
        × (length l.unread < length cs)
        × (tok.loc.end ≡ l.pos)
        × (tok.type ≢ TokenType.colon))

abbrev TakesBelow : ℕ → (Lexer → Outcome (Token × Lexer)) → Type 0
TakesBelow n again =
    (cs : List Char) (q : SourceLoc)
    → WholeLines cs
    → length cs < n
    → Surely (Taken cs q) (again (at cs q))

-- `take` in itself, behind what was skipped.
again-Surely :
    (n : ℕ) (again : Lexer → Outcome (Token × Lexer)) (cs : List Char) (q : SourceLoc) (l : Lexer)
    → TakesBelow n again
    → WholeLines cs
    → length l.unread < n
    → Reads cs q l
    → Surely (Taken cs q) (again l)
again-Surely n again cs q l h w k r =
    subst (λ m. Surely (Taken cs q) (again m)) (sym r.running)
      (Ensures-weaken (h l.unread l.pos (Reads-WholeLines r w) k) (λ (tok, m) t. elim t [
        | inl (e, u) ↦ inl (e, λ n. u (Reads-NoEof r n))
        | inr (s, b, p, n) ↦ inr (Reads-trans r s, omega (arith, Reads-length r), p, n)
      ]))

finish-Taken :
    (cs : List Char) (q start : SourceLoc) (type : TokenType) (str : List Char) (l : Lexer)
    → Reads cs q l
    → length l.unread < length cs
    → type ≢ TokenType.colon
    → Surely (Taken cs q) (finish start type str l)
finish-Taken cs q start type str l r k n = gives _ (inr (r, k, refl, n))

-- No token of two characters ends behind the end of the input.
symbol-alone : (c : ℕ) (type : TokenType) → symbol c (code eof) ≢ some (type, true)
unfolding symbol
symbol-alone c type h = ground arith

symbol-colon :
    (c d : ℕ) (type : TokenType) (two : Bool)
    → symbol c d ≡ some (type, two)
    → type ≢ TokenType.colon
unfolding symbol
symbol-colon c d type two h e = ground arith

unexpected-colon : TokenType.error_unexpected_char ≢ TokenType.colon
unexpected-colon e = cc

word_type-colon : (c : Char) (cs : List Char) → (word_type c cs).0 ≢ TokenType.colon
unfolding word_type
word_type-colon c cs h = ground arith

symbol-Surely :
    (c : Char) (cs : List Char) (q : SourceLoc) (type : TokenType) (two : Bool)
    → symbol (code c) (code (peek_char (at cs (advance c q)))) ≡ some (type, two)
    → Surely (Taken (c ∷ cs) q) (
        finish q type [] (if two then (take_char (at cs (advance c q))).1 else at cs (advance c q)))
unfolding peek_char take_char
symbol-Surely c cs q type false h =
    finish-Taken _ _ _ _ _ _ (Reads-one c cs q) (omega arith)
      (symbol-colon (code c) (code (peek_char (at cs (advance c q)))) type false h)
symbol-Surely c [] q type true h = absurd (symbol-alone (code c) type h)
symbol-Surely c (d ∷ cs) q type true h =
    finish-Taken _ _ _ _ _ _ (Reads-trans (Reads-one c (d ∷ cs) q) (Reads-one d cs _)) (omega arith)
      (symbol-colon (code c) (code d) type true h)

take_other-Surely :
    (f : ℕ) (again : Lexer → Outcome (Token × Lexer)) (c : Char) (cs : List Char) (q : SourceLoc)
    → TakesBelow f again
    → WholeLines (c ∷ cs)
    → length cs < f
    → Surely (Taken (c ∷ cs) q) (take_other again f q c (at cs (advance c q)))
unfolding take_other
take_other-Surely f again c cs q h w k =
    let one = Reads-one c cs q in
    if-Ensures (is_whitespace c)
      (λ _. >>=-Ensures (skip_whitespace-Surely f cs (advance c q) k) (λ l r.
        again-Surely f again (c ∷ cs) q l h w (omega (arith, Reads-length r)) (Reads-trans one r)))
      (λ _.
        if-Ensures (is_numeric c || is_alpha c || code c == b'_')
          (λ _. >>=-Ensures (take_word-Surely f cs (advance c q) k) (λ r s.
            finish-Taken _ _ _ _ _ _ (Reads-trans one s) (omega (arith, Reads-length s))
              (word_type-colon c r.0)))
          (λ _. finish-Taken _ _ _ _ _ _ one (omega arith) unexpected-colon))

comment-Surely :
    (f : ℕ) (again : Lexer → Outcome (Token × Lexer)) (c : Char) (cs : List Char) (q : SourceLoc)
    → TakesBelow f again
    → WholeLines (c ∷ cs)
    → length cs < f
    → code (peek_char (at cs (advance c q))) ≡ b'/'
    → Surely (Taken (c ∷ cs) q) (skip_line f (at cs (advance c q)) >>= again)
unfolding peek_char
comment-Surely f again c [] q h w k p = absurd (omega arith)
comment-Surely f again c (d ∷ cs) q h w k p =
    >>=-Ensures (skip_line-Surely f d cs (advance c q) w (omega arith)) (λ l r.
      again-Surely f again (c ∷ d ∷ cs) q l h w (omega (arith, Reads-length r))
        (Reads-trans (Reads-one c (d ∷ cs) q) r))

take_fresh-Surely :
    (f : ℕ) (again : Lexer → Outcome (Token × Lexer)) (c : Char) (cs : List Char) (q : SourceLoc)
    → TakesBelow f again
    → WholeLines (c ∷ cs)
    → length cs < f
    → Surely (Taken (c ∷ cs) q) (take_fresh again f (at (c ∷ cs) q))
unfolding take_fresh take_char
take_fresh-Surely f again c cs q h w k =
    if-Ensures (code c == code eof) (λ p. gives _ (inl (refl, λ n. absurd (n.0 (ground arith)))))
      (λ _.
        if-Ensures (code c == b'/' && code (peek_char (at cs (advance c q))) == b'/')
          (λ p. comment-Surely f again c cs q h w k (ground arith))
          (λ _.
            elim-Ensures (symbol (code c) (code (peek_char (at cs (advance c q)))))
              (λ _. take_other-Surely f again c cs q h w k)
              (λ (type, two) p. symbol-Surely c cs q type two p)))

-- On a source of whole lines, on more fuel than it has characters, `take` of a lexer with no token
-- peeked at returns: the end of the file, where all is read if no byte of the source is the one that
-- stands for it, or a token, for which it has read one character or more; the position has then moved
-- over just what was read, the token's location ends there, and it is not a colon.
pub take-Surely :
    (f : ℕ) (cs : List Char) (q : SourceLoc)
    → WholeLines cs
    → length cs < f
    → Surely (Taken cs q) (take f (at cs q))
unfolding take take_fresh take_char
take-Surely zero cs q w k = absurd (omega arith)
take-Surely (suc f) [] q w k = gives _ (inl (refl, λ _. refl))
take-Surely (suc f) (c ∷ cs) q w k =
    take_fresh-Surely f (take f) c cs q (λ ds p v l. take-Surely f ds p v l) w (omega arith)
