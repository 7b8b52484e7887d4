-- ===== src/Frontend/Lexer/Reads.antt =====
-- What a function of frontend/Lexer.cpp reads of the source, and where it leaves the lexer.
use sasc.Prelude.{
  ℕ, zero, suc, ◌<◌, ◌≤◌, ◌≡◌, refl, sym, ap, ◌∙◌, false, none, arith, List, [], ◌∷◌, ◌++◌,
  append_assoc, length, length-append, subst, ◌==◌,
}
use sasc.Frontend.Outcome.{Surely, gives, >>=-Ensures, if-Ensures, Ensures-weaken}
use sasc.Frontend.Token.{SourceLoc, is_whitespace, is_delimiter}
use sasc.Frontend.Lexer.{
  Lexer, advance, take_char, peek_char, skip_line, skip_whitespace, take_word,
}
use Prim.Native.Char.{Char, code}

-- A lexer that has not met the end of the input, with no token peeked at.
abbrev pub at : List Char → SourceLoc → Lexer
at cs q = record { unread = cs; done = false; peeked_token = none; pos = q }

-- The position behind a text.
abbrev pub walk : List Char → SourceLoc → SourceLoc
walk [] q = q
walk (c ∷ cs) q = walk cs (advance c q)

-- The text is whole lines: its last character, if any, is a newline.
abbrev pub WholeLines : List Char → Type 0
WholeLines [] = Unit
WholeLines (c ∷ []) = code c ≡ b'\n'
WholeLines (c ∷ d ∷ cs) = WholeLines (d ∷ cs)

-- From `cs` at `q` a text is taken, which the position moves over.
pub record Reads (cs : List Char) (q : SourceLoc) (l : Lexer) : Type 0 where
  pub taken : List Char
  pub split : cs ≡ taken ++ l.unread
  pub moved : l.pos ≡ walk taken q
  pub running : l ≡ at l.unread l.pos

walk-append : (as_ bs : List Char) (q : SourceLoc) → walk (as_ ++ bs) q ≡ walk bs (walk as_ q)
walk-append [] bs q = refl
walk-append (a ∷ as_) bs q = walk-append as_ bs (advance a q)

pub Reads-refl : (cs : List Char) (q : SourceLoc) → Reads cs q (at cs q)
Reads-refl cs q = record { taken = []; split = refl; moved = refl; running = refl }

pub Reads-one : (c : Char) (cs : List Char) (q : SourceLoc) → Reads (c ∷ cs) q (at cs (advance c q))
Reads-one c cs q = record { taken = c ∷ []; split = refl; moved = refl; running = refl }

pub Reads-trans :
    {cs : List Char} {q : SourceLoc} {l m : Lexer}
    → Reads cs q l
    → Reads l.unread l.pos m
    → Reads cs q m
Reads-trans {q = q} {l = l} {m = m} r s = record {
  taken = r.taken ++ s.taken;
  split = r.split ∙ ap (λ z. r.taken ++ z) s.split ∙ sym (append_assoc r.taken s.taken m.unread);
  moved = s.moved ∙ ap (walk s.taken) r.moved ∙ sym (walk-append r.taken s.taken q);
  running = s.running;
}

pub Reads-length :
    {cs : List Char} {q : SourceLoc} {l : Lexer} → Reads cs q l → length l.unread ≤ length cs
Reads-length {l = l} r = omega (arith, ap length r.split, length-append r.taken l.unread)

WholeLines-drop : (as_ bs : List Char) → WholeLines (as_ ++ bs) → WholeLines bs
WholeLines-drop [] bs h = h
WholeLines-drop (a ∷ []) [] h = tt
WholeLines-drop (a ∷ []) (b ∷ bs) h = h
WholeLines-drop (a ∷ c ∷ as_) bs h = WholeLines-drop (c ∷ as_) bs h

pub Reads-WholeLines :
    {cs : List Char} {q : SourceLoc} {l : Lexer}
    → Reads cs q l
    → WholeLines cs
    → WholeLines l.unread
Reads-WholeLines {l = l} r h = WholeLines-drop r.taken l.unread (subst WholeLines r.split h)

-- A comment's text is read to its newline.
pub skip_line-Surely :
    (f : ℕ) (c : Char) (cs : List Char) (q : SourceLoc)
    → WholeLines (c ∷ cs)
    → length (c ∷ cs) ≤ f
    → Surely (Reads (c ∷ cs) q) (skip_line f (at (c ∷ cs) q))
unfolding skip_line take_char
skip_line-Surely zero c cs q w l = absurd (omega arith)
skip_line-Surely (suc f) c [] q w l =
    if-Ensures (code c == b'\n') (λ _. gives _ (Reads-one c [] q)) (λ h. absurd (ground arith))
skip_line-Surely (suc f) c (d ∷ cs) q w l =
    if-Ensures (code c == b'\n') (λ _. gives _ (Reads-one c (d ∷ cs) q))
      (λ _.
        Ensures-weaken (skip_line-Surely f d cs (advance c q) w (omega arith))
          (λ m r. Reads-trans (Reads-one c (d ∷ cs) q) r))

pub skip_whitespace-Surely :
    (f : ℕ) (cs : List Char) (q : SourceLoc)
    → length cs < f
    → Surely (Reads cs q) (skip_whitespace f (at cs q))
unfolding skip_whitespace take_char peek_char
skip_whitespace-Surely zero cs q l = absurd (omega arith)
skip_whitespace-Surely (suc f) [] q l = gives _ (Reads-refl [] q)
skip_whitespace-Surely (suc f) (c ∷ cs) q l =
    if-Ensures (is_whitespace c)
      (λ _.
        Ensures-weaken (skip_whitespace-Surely f cs (advance c q) (omega arith))
          (λ m r. Reads-trans (Reads-one c cs q) r))
      (λ _. gives _ (Reads-refl (c ∷ cs) q))

-- A word is as much of the source as is not a delimiter.
pub take_word-Surely :
    (f : ℕ) (cs : List Char) (q : SourceLoc)
    → length cs < f
    → Surely (λ (r : List Char × Lexer). Reads cs q r.1) (take_word f (at cs q))
unfolding take_word take_char peek_char
take_word-Surely zero cs q l = absurd (omega arith)
take_word-Surely (suc f) [] q l = gives _ (Reads-refl [] q)
take_word-Surely (suc f) (c ∷ cs) q l =
    if-Ensures (is_delimiter c) (λ _. gives _ (Reads-refl (c ∷ cs) q))
      (λ _.
        >>=-Ensures (take_word-Surely f cs (advance c q) (omega arith))
          (λ r h. gives _ (Reads-trans (Reads-one c cs q) h)))
