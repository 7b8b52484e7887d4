-- ===== src/Cli/Accepts.antt =====
-- When `parse` of utils/CliParser.cpp returns, and when it asks for help.
use sasc.Prelude.{
  get_elem?-found, ℕ, zero, suc, ◌+◌, ◌≤◌, ◌≡◌, ◌≢◌, refl, sym, ap, subst, ◌∙◌, ◌==◌, ==_refl, not,
  ◌&&◌, ◌||◌, if◌then◌else◌, Bool, true, false, List, [], ◌∷◌, length, get_elem?, set, Option, none,
  some, Option-cases, inl, inr, arith,
}
use sasc.Cli.Text.{Text}
use sasc.Cli.Arg.{Arg, add_value}
use sasc.Cli.Register.{CliResult, parsed, help_requested, ◌>>=◌}
use sasc.Cli.Parse.{
  Parsing, positionals, record_value, is_repeat, is_help, hit_flag, set_option, pass_flag,
  take_positional,
}
use sasc.Cli.Actions.{Action, pass, give, place, stop, act, act_all}
use sasc.Cli.Names.{recorded, placed, record_value-SameNames, some-injective}
use sasc.Cli.Values.{received, gained, record_value-at, received-placed}

-- How many operands there are.
unfoldable pub places : List Action → ℕ
places [] = 0
places (place tok ∷ actions) = places actions + 1
places (pass i ∷ actions) = places actions
places (give i val ∷ actions) = places actions
places (stop ∷ actions) = places actions

unfoldable pub asks_help : Option ℕ → List Action → Bool
asks_help help [] = false
asks_help help (pass i ∷ actions) = is_help help i || asks_help help actions
asks_help help (give i val ∷ actions) = asks_help help actions
asks_help help (place tok ∷ actions) = asks_help help actions
asks_help help (stop ∷ actions) = asks_help help actions

abbrev pub times : Bool → ℕ
times true = 1
times false = 0

-- No argument is passed again that may not be, in what is left to do.
abbrev pub Once : List Arg → (ℕ → List Text) → Type 0
Once args left =
    (i : ℕ) (a : Arg)
    → get_elem? args i ≡ some a
    → a.multi_allowed ≡ false
    → length (left i) + times a.seen ≤ 1

get_elem?-set-none {ℓ} :
    {A : Type ℓ} (xs : List A) (i j : ℕ) (v : A)
    → get_elem? xs i ≡ none
    → get_elem? (set xs j v) i ≡ none
get_elem?-set-none [] i j v h = h
get_elem?-set-none (x ∷ xs) zero j v h = cc
get_elem?-set-none (x ∷ xs) (suc i) zero v h = h
get_elem?-set-none (x ∷ xs) (suc i) (suc j) v h = get_elem?-set-none xs i j v h

pub record_value-none :
    (j : ℕ) (val : Text) (args : List Arg) (i : ℕ)
    → get_elem? args i ≡ none
    → get_elem? (record_value j val args) i ≡ none
unfolding record_value
record_value-none j val args i h = elim (Option-cases (get_elem? args j)) [
  | inl e ↦ rw (e, record_value) h
  | inr (b, e) ↦ rw (e, record_value) (get_elem?-set-none args i j (gained val b) h)
]

pub none-not-some {ℓ} : {A : Type ℓ} {a : A} → none ≢ some a
none-not-some e = cc

record_value-from :
    (j : ℕ) (val : Text) (args : List Arg) (i : ℕ) (b : Arg)
    → get_elem? (record_value j val args) i ≡ some b
    → (a : Arg) × (get_elem? args i ≡ some a) × (b ≡ (if j == i then gained val a else a))
record_value-from j val args i b h = elim (Option-cases (get_elem? args i)) [
  | inl e ↦ absurd (none-not-some (sym (record_value-none j val args i e) ∙ h))
  | inr (a, e) ↦ (a, e, some-injective (sym h ∙ record_value-at j val args i a e))
]

once-if :
    (c : Bool) (val : Text) (vals : List Text) (a b : Arg)
    → b ≡ (if c then gained val a else a)
    → (a.multi_allowed ≡ false → length (if c then val ∷ vals else vals) + times a.seen ≤ 1)
    → b.multi_allowed ≡ false
    → length vals + times b.seen ≤ 1
unfolding add_value
once-if true val vals a b e o =
    subst (λ b. b.multi_allowed ≡ false → length vals + times b.seen ≤ 1) (sym e)
      (λ m. omega (arith, o m))
once-if false val vals a b e o =
    subst (λ b. b.multi_allowed ≡ false → length vals + times b.seen ≤ 1) (sym e) o

recorded-Once :
    (j : ℕ) (val : Text) (args : List Arg) (left : ℕ → List Text)
    → Once args (λ i. if j == i then val ∷ left i else left i)
    → Once (record_value j val args) left
recorded-Once j val args left once i b h m =
    let (a, g, e) = record_value-from j val args i b h in
    once-if (j == i) val (left i) a b e (once i a g) m

once-not_repeat :
    (multi seen : Bool) (n : ℕ)
    → (multi ≡ false → suc n + times seen ≤ 1)
    → not multi && seen ≡ false
once-not_repeat true seen n h = refl
once-not_repeat false true n h = absurd (omega (arith, h refl))
once-not_repeat false false n h = refl

not-is_repeat :
    (j : ℕ) (val : Text) (args : List Arg) (left : ℕ → List Text)
    → Once args (λ i. if j == i then val ∷ left i else left i)
    → is_repeat j args ≡ false
unfolding is_repeat
not-is_repeat j val args left once = elim (Option-cases (get_elem? args j)) [
  | inl e ↦ rw (e, is_repeat) refl
  | inr (a, e) ↦
      rw (e, is_repeat)
        (once-not_repeat a.multi_allowed a.seen (length (left j)) (
          subst
            (λ c.
              a.multi_allowed ≡ false
              → length (if c then val ∷ left j else left j) + times a.seen ≤ 1)
            (==_refl j) (once j a e)))
]

pub or-false : (b c : Bool) → b || c ≡ false → (b ≡ false) × (c ≡ false)
or-false true c h = cc
or-false false c h = (refl, h)

set_option-accepts :
    (j : ℕ) (val : Text) (p : Parsing)
    → is_repeat j p.args ≡ false
    → set_option j val p ≡ parsed (recorded j val p)
unfolding set_option
set_option-accepts j val p r = rw r refl

pub pass_flag-accepts :
    (help : Option ℕ) (j : ℕ) (p : Parsing)
    → is_repeat j p.args ≡ false
    → pass_flag help j p ≡ (if is_help help j then help_requested else parsed (recorded j [] p))
unfolding pass_flag hit_flag
pass_flag-accepts help j p r = rw (r, pass_flag) refl

take_positional-accepts :
    (tok : Text) (p : Parsing) (j : ℕ)
    → get_elem? (positionals 0 p.args) p.pos_index ≡ some j
    → take_positional tok p ≡ parsed (placed j tok p)
unfolding take_positional
take_positional-accepts tok p j e = rw (e, take_positional) refl

-- What is left to receive, where positions are looked up in other arguments with the same positionals.
pub left-Once :
    (args xs : List Arg) (n : ℕ) (actions : List Action)
    → positionals 0 xs ≡ positionals 0 args
    → Once xs (λ i. received (positionals 0 args) n i actions)
    → Once xs (λ i. received (positionals 0 xs) n i actions)
left-Once args xs n actions same once =
    subst (λ s. Once xs (λ i. received s n i actions)) (sym same) once

then-accepts :
    (help : Option ℕ) (actions : List Action) (m : CliResult Parsing) (r : Parsing)
    → m ≡ parsed r
    → (q : Parsing) × (act_all help actions r ≡ parsed q)
    → (q : Parsing) × ((m >>= act_all help actions) ≡ parsed q)
then-accepts help actions m r e (q, f) = (q, ap (λ m. m >>= act_all help actions) e ∙ f)

-- The actions are done where none is refused.
pub act_all-accepts :
    (help : Option ℕ) (actions : List Action) (p : Parsing)
    → Once p.args (λ i. received (positionals 0 p.args) p.pos_index i actions)
    → places actions + p.pos_index ≤ length (positionals 0 p.args)
    → asks_help help actions ≡ false
    → (q : Parsing) × (act_all help actions p ≡ parsed q)
unfolding act_all act received places asks_help
act_all-accepts help [] p once room unasked = (p, refl)
act_all-accepts help (pass j ∷ actions) p once room unasked =
    let (other, later) = or-false (is_help help j) (asks_help help actions) unasked in
    let same = (record_value-SameNames j [] p.args).slots 0 in
    let left = λ (i : ℕ). received (positionals 0 p.args) p.pos_index i actions in
    then-accepts help actions (pass_flag help j p) (recorded j [] p)
      (pass_flag-accepts help j p (not-is_repeat j [] p.args left once) ∙ rw other refl)
      (act_all-accepts help actions (recorded j [] p)
        (left-Once p.args _ p.pos_index actions same (recorded-Once j [] p.args left once))
        (omega (arith, ap length same)) later)
act_all-accepts help (give j val ∷ actions) p once room unasked =
    let same = (record_value-SameNames j val p.args).slots 0 in
    let left = λ (i : ℕ). received (positionals 0 p.args) p.pos_index i actions in
    then-accepts help actions (set_option j val p) (recorded j val p)
      (set_option-accepts j val p (not-is_repeat j val p.args left once))
      (act_all-accepts help actions (recorded j val p)
        (left-Once p.args _ p.pos_index actions same (recorded-Once j val p.args left once))
        (omega (arith, ap length same)) unasked)
act_all-accepts help (place tok ∷ actions) p once room unasked =
    let (j, e) = get_elem?-found (positionals 0 p.args) p.pos_index (omega arith) in
    let same = (record_value-SameNames j tok p.args).slots 0 in
    let left = λ (i : ℕ). received (positionals 0 p.args) (p.pos_index + 1) i actions in
    then-accepts help actions (take_positional tok p) (placed j tok p)
      (take_positional-accepts tok p j e)
      (act_all-accepts help actions (placed j tok p)
        (left-Once p.args _ (p.pos_index + 1) actions same (
          recorded-Once j tok p.args left (λ i a g m.
            subst (λ vals. length vals + times a.seen ≤ 1)
              (sym (received-placed (positionals 0 p.args) p.pos_index i j tok actions e))
              (once i a g m))))
        (omega (arith, ap length same)) unasked)
act_all-accepts help (stop ∷ actions) p once room unasked =
    act_all-accepts help actions (record p { end_of_flags = true }) once room unasked
