-- ===== src/Cli/Text.antt =====
-- What utils/CliParser.cpp and main.cpp use of the C++ library's strings: `==`, `find` of a character
-- with `substr`, and `operator+=` in a loop. A string is a list of bytes.
use sasc.Prelude.{
  ◌≡◌, refl, ap, sym, ◌∙◌, Bool, true, false, ◌==◌, if◌then◌else◌, List, [], ◌∷◌, ◌++◌, Option,
  none, some,
}
use sasc.Frontend.Token.{chars, text}
use package.text.Mathlib.Text.{◌==◌ as str_eq}
use package.text.Mathlib.TextEquality.{eq_iff}
use package.text.Mathlib.TextPositions.{eq_refl}
use Prim.Native.Char.{Char, code}

abbrev pub Text : Type 0
Text = List Char

abbrev pub same_char : Char → Char → Bool
same_char c d = code c == code d

unfoldable pub same_text : Text → Text → Bool
same_text s t = str_eq (text s) (text t)

abbrev pub is_empty : Text → Bool
is_empty [] = true
is_empty (c ∷ cs) = false

-- `find` and the two `substr` around what it finds: the text in front of the first `sep`, and what is
-- behind it if there is one.
unfoldable pub cut_at : Char → Text → Text × Option Text
cut_at sep [] = ([], none)
cut_at sep (c ∷ cs) =
    let (before, behind) = cut_at sep cs in
    if same_char c sep then ([], some cs) else (c ∷ before, behind)

-- The loop that splits on `sep`; `piece` is what it is past since the last one.
unfoldable pub pieces : Char → Text → Text → List Text
pieces sep piece [] = piece ∷ []
pieces sep piece (c ∷ cs) =
    let here = pieces sep [] cs in
    let on = pieces sep (piece ++ c ∷ []) cs in if same_char c sep then piece ∷ here else on

chars-text : (s : Text) → chars (text s) ≡ s
chars-text [] = refl
chars-text (c ∷ cs) = ap (◌∷◌ c) (chars-text cs)

pub same_text-eq : (s t : Text) → same_text s t ≡ true → s ≡ t
unfolding same_text
same_text-eq s t h = sym (chars-text s) ∙ (ap chars ((eq_iff (text s) (text t)).0 h) ∙ chars-text t)

pub same_text_refl : (s : Text) → same_text s s ≡ true
unfolding same_text
same_text_refl s = eq_refl (text s)
