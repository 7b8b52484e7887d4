-- ===== src/Cli/Repeats.antt =====
-- The test for a repeated argument in utils/CliParser.cpp, and the slots of the positionals.
use sasc.Prelude.{
  true-not-false, ℕ, zero, suc, ◌+◌, ◌≤◌, ◌≡◌, refl, sym, subst, ◌∙◌, ◌==◌, ==_iff, not, ◌&&◌,
  Bool-cases, if◌then◌else◌, Bool, true, false, List, [], ◌∷◌, length, get_elem?, Option, some, inl,
  inr, ◌⊎◌, arith,
}
use sasc.Cli.Text.{Text}
use sasc.Cli.Arg.{Arg, positional, same_kind, add_value}
use sasc.Cli.Register.{parsed}
use sasc.Cli.Parse.{Parsing, positionals, record_value, is_repeat, hit_flag, set_option, pass_flag}
use sasc.Cli.Actions.{Action}
use sasc.Cli.Names.{>>=-eq-parsed, unless-eq-parsed, cli_error-not-parsed, some-injective}
use sasc.Cli.Values.{received, gained, record_value-at}
use sasc.Cli.Accepts.{times}

-- No flag or option is passed again that may not be, in what is left to do.
abbrev pub OnceNamed : List Arg → (ℕ → List Text) → Type 0
OnceNamed args left =
    (i : ℕ) (a : Arg)
    → get_elem? args i ≡ some a
    → same_kind a.kind positional ≡ false
    → a.multi_allowed ≡ false
    → length (left i) + times a.seen ≤ 1

pub set_option-not_repeat :
    (j : ℕ) (val : Text) (p q : Parsing)
    → set_option j val p ≡ parsed q
    → is_repeat j p.args ≡ false
unfolding set_option
set_option-not_repeat j val p q h =
    (unless-eq-parsed (is_repeat j p.args) _ _ (cli_error-not-parsed _) h).0

pub pass_flag-not_repeat :
    (help : Option ℕ) (j : ℕ) (p q : Parsing)
    → pass_flag help j p ≡ parsed q
    → is_repeat j p.args ≡ false
unfolding pass_flag hit_flag
pass_flag-not_repeat help j p q h =
    let (r, e, _) = >>=-eq-parsed (hit_flag j p) _ h in
    (unless-eq-parsed (is_repeat j p.args) _ _ (cli_error-not-parsed _) e).0

not_repeat-times : (multi seen : Bool) → multi ≡ false → not multi && seen ≡ false → times seen ≡ 0
not_repeat-times true seen m h = cc
not_repeat-times false true m h = cc
not_repeat-times false false m h = refl

once-cons :
    (c : Bool) (val : Text) (vals : List Text) (a : Arg)
    → ((if c then gained val a else a).multi_allowed ≡ false
        → length vals + times (if c then gained val a else a).seen ≤ 1)
    → (c ≡ true → times a.seen ≡ 0)
    → a.multi_allowed ≡ false
    → length (if c then val ∷ vals else vals) + times a.seen ≤ 1
unfolding add_value
once-cons true val vals a h k m = omega (arith, h m, k refl)
once-cons false val vals a h k m = h m

is_repeat-at :
    (j : ℕ) (args : List Arg) (a : Arg)
    → get_elem? args j ≡ some a
    → is_repeat j args ≡ not a.multi_allowed && a.seen
unfolding is_repeat
is_repeat-at j args a g = rw (g, is_repeat) refl

kind-if :
    (c : Bool) (val : Text) (a : Arg)
    → same_kind a.kind positional ≡ false
    → same_kind (if c then gained val a else a).kind positional ≡ false
unfolding add_value
kind-if true val a n = n
kind-if false val a n = n

pub Once-recorded :
    (j : ℕ) (val : Text) (args : List Arg) (left : ℕ → List Text)
    → is_repeat j args ≡ false
    → OnceNamed (record_value j val args) left
    → OnceNamed args (λ i. if j == i then val ∷ left i else left i)
Once-recorded j val args left r once i a g n m =
    once-cons (j == i) val (left i) a
      (once i _ (record_value-at j val args i a g) (kind-if (j == i) val a n))
      (λ e.
        let here = subst (λ k. get_elem? args k ≡ some a) (sym ((==_iff j i).0 e)) g in
        not_repeat-times a.multi_allowed a.seen m (sym (is_repeat-at j args a here) ∙ r))
      m

-- What is left to receive, where the positionals are those of other arguments.
pub same-Once :
    (args xs : List Arg) (n : ℕ) (actions : List Action)
    → positionals 0 xs ≡ positionals 0 args
    → OnceNamed xs (λ i. received (positionals 0 xs) n i actions)
    → OnceNamed xs (λ i. received (positionals 0 args) n i actions)
same-Once args xs n actions same once =
    subst (λ s. OnceNamed xs (λ i. received s n i actions)) same once

slot-cases :
    (b : Bool) (k : ℕ) (slots : List ℕ) (n j : ℕ)
    → get_elem? (if b then k ∷ slots else slots) n ≡ some j
    → ((b ≡ true) × (j ≡ k)) ⊎ ((m : ℕ) × (get_elem? slots m ≡ some j))
slot-cases false k slots n j h = inr (n, h)
slot-cases true k slots zero j h = inl (refl, sym (some-injective h))
slot-cases true k slots (suc n) j h = inr (n, h)

-- A slot is a positional.
slot-positional :
    (k : ℕ) (args : List Arg) (n j : ℕ)
    → get_elem? (positionals k args) n ≡ some j
    → (i : ℕ) × (j ≡ k + i)
      × ((a : Arg) → get_elem? args i ≡ some a → same_kind a.kind positional ≡ true)
unfolding positionals
slot-positional k [] n j h = cc
slot-positional k (x ∷ xs) n j h =
    elim (slot-cases (same_kind x.kind positional) k (positionals (suc k) xs) n j h) [
      | inl (b, e) ↦ (
        0,
        omega (arith, e),
        λ a g. subst (λ y. same_kind y.kind positional ≡ true) (some-injective g) b,
      )
      | inr (m, g) ↦
          let (i, e, f) = slot-positional (suc k) xs m j g in (suc i, omega (arith, e), f)
    ]

-- What is not a positional is not in a slot.
pub slot-other :
    (args : List Arg) (n j i : ℕ) (a : Arg)
    → get_elem? (positionals 0 args) n ≡ some j
    → get_elem? args i ≡ some a
    → same_kind a.kind positional ≡ false
    → (j == i) ≡ false
slot-other args n j i a h g f = elim (Bool-cases (j == i)) [
  | inr e ↦ e
  | inl e ↦
      let (l, at, is) = slot-positional 0 args n j h in
      let same : i ≡ l = omega (arith, (==_iff j i).0 e, at) in
      absurd (true-not-false (sym (is a (subst (λ y. get_elem? args y ≡ some a) same g)) ∙ f))
]
