-- ===== src/Frontend/Lexer/Peek.antt =====
-- `peek` of frontend/Lexer.cpp against `take`.
use sasc.Prelude.{
  ℕ, zero, suc, ◌≡◌, ◌≢◌, refl, sym, ap, ◌∙◌, Option, none, some, Option-cases, inl, inr,
}
use sasc.Frontend.Outcome.{Outcome, returns, ◌>>=◌}
use sasc.Frontend.Token.{Token}
use sasc.Frontend.Lexer.{Lexer, take, peek}

again :
    (g : ℕ) (n : Lexer) (tok : Token)
    → n.peeked_token ≡ none
    → take (suc g) (record n { peeked_token = some tok }) ≡ returns (tok, n)
unfolding take
again g n tok k = ap (λ o. returns (tok, record n { peeked_token = o })) (sym k)

peek-fresh :
    (f : ℕ) (l n : Lexer) (tok : Token)
    → l.peeked_token ≡ none
    → take f l ≡ returns (tok, n)
    → peek f l ≡ returns (tok, record n { peeked_token = some tok })
unfolding peek
peek-fresh f l n tok e h = peek_case l.peeked_token e (take f l) h
  where
    peek_case :
        (o : Option Token)
        → o ≡ none
        → (r : Outcome (Token × Lexer)) → r ≡ returns (tok, n)
        → ◌≡◌ {A = Outcome (Token × Lexer)}
            (elim o as (λ _. Outcome (Token × Lexer)) [
              | some t ↦ returns (t, l)
              | none ↦
                  r >>= λ (s : Token × Lexer). returns (s.0, record s.1 { peeked_token = some s.0 })
            ])
            (returns (tok, record n { peeked_token = some tok }))
    peek_case o z r y = rw (z, y) refl

peek-held : (f : ℕ) (l : Lexer) (t : Token) → l.peeked_token ≡ some t → peek f l ≡ returns (t, l)
unfolding peek
peek-held f l t e = rw e refl

take-held :
    (f : ℕ) (l : Lexer) (t : Token)
    → l.peeked_token ≡ some t
    → take (suc f) l ≡ returns (t, record l { peeked_token = none })
unfolding take
take-held f l t e = rw e refl

take-zero : (l : Lexer) (r : Token × Lexer) → take 0 l ≢ returns r
unfolding take
take-zero l r h = cc

-- Where `take` gives a token and leaves none peeked at, `peek` gives the same token, and `take` behind
-- it gives that token again and leaves the lexer as it would have without the `peek`.
pub peek-take :
    (f g : ℕ) (l n : Lexer) (tok : Token)
    → take f l ≡ returns (tok, n)
    → n.peeked_token ≡ none
    → (m : Lexer) × (peek f l ≡ returns (tok, m)) × (take (suc g) m ≡ returns (tok, n))
peek-take zero g l n tok h k = absurd (take-zero l (tok, n) h)
peek-take (suc f) g l n tok h k = elim (Option-cases l.peeked_token) [
  | inl e ↦ (record n { peeked_token = some tok }, peek-fresh (suc f) l n tok e h, again g n tok k)
  | inr (t, e) ↦
      let held = sym (take-held f l t e) ∙ h in
      (
        l,
        peek-held (suc f) l t e ∙ ap (λ u. returns (u, l)) (same t tok held),
        take-held g l t e ∙ held,
      )
]
  where
    same :
        {m : Lexer} (t tok : Token)
        → ◌≡◌ {A = Outcome (Token × Lexer)} (returns (t, m)) (returns (tok, n))
        → t ≡ tok
    same t tok e = cc
