-- ===== src/Cli/Split.antt =====
-- The splitting of a value on a separator in `Arg::add_value` of utils/CliParser.cpp.
use sasc.Prelude.{
  ◌≡◌, refl, sym, ap, ◌∙◌, Bool-cases, inl, inr, List, [], ◌∷◌, ◌++◌, append-nil, append_assoc, All,
  ==_iff,
}
use sasc.Cli.Text.{Text, same_char, pieces}
use sasc.Cli.Actions.{Lacks}
use package.text.Mathlib.TextEquality.{Char-path}
use Prim.Native.Char.{Char, code}

-- Pieces with the separator between them.
unfoldable pub join : Char → List Text → Text
join sep [] = []
join sep (p ∷ []) = p
join sep (p ∷ (q ∷ ps)) = p ++ sep ∷ join sep (q ∷ ps)

-- What `pieces` gives is not empty, so that a piece may be put in front.
pieces-is_cons :
    (sep : Char) (piece val : Text)
    → (p : Text) × (ps : List Text) × (pieces sep piece val ≡ p ∷ ps)
unfolding pieces
pieces-is_cons sep piece [] = (piece, [], refl)
pieces-is_cons sep piece (c ∷ cs) = elim (Bool-cases (same_char c sep)) [
  | inl e ↦ (piece, pieces sep [] cs, rw e refl)
  | inr e ↦ let (p, ps, h) = pieces-is_cons sep (piece ++ c ∷ []) cs in (p, ps, rw e h)
]

join-cons :
    (sep : Char) (piece p : Text) (ps : List Text)
    → join sep (piece ∷ (p ∷ ps)) ≡ piece ++ sep ∷ join sep (p ∷ ps)
unfolding join
join-cons sep piece p ps = refl

join-one : (sep : Char) (piece : Text) → join sep (piece ∷ []) ≡ piece
unfolding join
join-one sep piece = refl

join-pieces_from : (sep : Char) (piece val : Text) → join sep (pieces sep piece val) ≡ piece ++ val
unfolding pieces
join-pieces_from sep piece [] = join-one sep piece ∙ sym (append-nil piece)
join-pieces_from sep piece (c ∷ cs) = elim (Bool-cases (same_char c sep)) [
  | inl e ↦
      let (p, ps, h) = pieces-is_cons sep [] cs in
      rw (e, h)
        (join-cons sep piece p ps
          ∙ ap (λ t. piece ++ sep ∷ t) (ap (join sep) (sym h) ∙ join-pieces_from sep [] cs)
          ∙ ap (λ d. piece ++ d ∷ cs) (sym (Char-path c sep ((==_iff (code c) (code sep)).0 e))))
  | inr e ↦ rw e (join-pieces_from sep (piece ++ c ∷ []) cs ∙ append_assoc piece (c ∷ []) cs)
]

Lacks-append : (c : Char) (s t : Text) → Lacks c s → Lacks c t → Lacks c (s ++ t)
Lacks-append c [] t h k = k
Lacks-append c (d ∷ s) t h k = (h.0, Lacks-append c s t h.1 k)

pieces-Lacks :
    (sep : Char) (piece val : Text) → Lacks sep piece → All (Lacks sep) (pieces sep piece val)
unfolding pieces
pieces-Lacks sep piece [] h = (h, tt)
pieces-Lacks sep piece (c ∷ cs) h = elim (Bool-cases (same_char c sep)) [
  | inl e ↦ rw e (h, pieces-Lacks sep [] cs tt)
  | inr e ↦ rw e (pieces-Lacks sep (piece ++ c ∷ []) cs (Lacks-append sep piece (c ∷ []) h (e, tt)))
]

-- The pieces of a value do not have the separator in them, and with it between them they are the value:
-- nothing is lost, empty pieces included.
pub join-pieces :
    (sep : Char) (val : Text)
    → (join sep (pieces sep [] val) ≡ val) × All (Lacks sep) (pieces sep [] val)
join-pieces sep val = (join-pieces_from sep [] val, pieces-Lacks sep [] val tt)
