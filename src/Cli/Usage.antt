-- ===== src/Cli/Usage.antt =====
-- Which command lines `parse` of utils/CliParser.cpp accepts, and which ask for help.
use sasc.Prelude.{
  ℕ, zero, suc, ◌+◌, ◌≤◌, ◌≡◌, ◌≢◌, refl, sym, ap, subst, ◌∙◌, not, ◌&&◌, Bool, true, false, List,
  [], ◌∷◌, map, length, get_elem?, Option, none, some, Option-cases, inl, inr, arith,
}
use sasc.Cli.Text.{Text}
use sasc.Cli.Arg.{Arg}
use sasc.Cli.Register.{CliParser, parsed, ◌>>=◌}
use sasc.Cli.Parse.{
  Parsing, begin, reset, positionals, fill_default, is_missing, check_required, parse,
}
use sasc.Cli.Actions.{Action, pass, give, place, stop, act, act_all, Says}
use sasc.Cli.Names.{
  >>=-eq-parsed, recorded, placed, pass_flag-recorded, set_option-recorded, take_positional-placed,
  parsed-injective, some-injective,
}
use sasc.Cli.Values.{received, act_all-gain}
use sasc.Cli.Results.{
  parse_actions, parse-Says, outcome, positionals-reset, fill_default-gain, get_elem?-map,
}
use sasc.Cli.Accepts.{
  places, asks_help, Once, times, record_value-none, act_all-accepts, none-not-some, left-Once,
}

act_all-none :
    (help : Option ℕ) (actions : List Action) (p q : Parsing) (i : ℕ)
    → act_all help actions p ≡ parsed q
    → get_elem? p.args i ≡ none
    → get_elem? q.args i ≡ none
unfolding act_all act
act_all-none help [] p q i h g = subst (λ r. get_elem? r.args i ≡ none) (parsed-injective h) g
act_all-none help (pass j ∷ actions) p q i h g =
    let (r, e, f) = >>=-eq-parsed (act help (pass j) p) (act_all help actions) h in
    act_all-none help actions (recorded j [] p) q i
      (ap (act_all help actions) (pass_flag-recorded help j p r e).1 ∙ f)
      (record_value-none j [] p.args i g)
act_all-none help (give j val ∷ actions) p q i h g =
    let (r, e, f) = >>=-eq-parsed (act help (give j val) p) (act_all help actions) h in
    act_all-none help actions (recorded j val p) q i
      (ap (act_all help actions) (set_option-recorded j val p r e) ∙ f)
      (record_value-none j val p.args i g)
act_all-none help (place tok ∷ actions) p q i h g =
    let (r, e, f) = >>=-eq-parsed (act help (place tok) p) (act_all help actions) h in
    let (j, _, put) = take_positional-placed tok p r e in
    act_all-none help actions (placed j tok p) q i (ap (act_all help actions) put ∙ f)
      (record_value-none j tok p.args i g)
act_all-none help (stop ∷ actions) p q i h g =
    act_all-none help actions (record p { end_of_flags = true }) q i h g

pub get_elem?-map_from {ℓ κ} :
    {A : Type ℓ} {B : Type κ} (f : A → B) (xs : List A) (i : ℕ) {b : B}
    → get_elem? (map f xs) i ≡ some b
    → (a : A) × (get_elem? xs i ≡ some a) × (f a ≡ b)
get_elem?-map_from f [] i h = cc
get_elem?-map_from f (x ∷ xs) zero h = (x, refl, some-injective h)
get_elem?-map_from f (x ∷ xs) (suc i) h = get_elem?-map_from f xs i h

check_required-accepts :
    (args : List Arg)
    → ((i : ℕ) (a : Arg) → get_elem? args i ≡ some a → is_missing a ≡ false)
    → check_required args ≡ parsed args
unfolding check_required
check_required-accepts [] h = refl
check_required-accepts (a ∷ args) h =
    rw (h 0 a refl, check_required-accepts args (λ i b g. h (suc i) b g)) refl

required-absent : (b : Bool) → (b ≡ true → ⊥) → b && not false ≡ false
required-absent true h = absurd (h refl)
required-absent false h = refl

and_false : (b : Bool) → b && not true ≡ false
and_false true = refl
and_false false = refl

present-outcome :
    (vals : List Text) (a : Arg)
    → (a.is_required ≡ true → vals ≢ [])
    → is_missing (outcome vals a) ≡ false
unfolding is_missing outcome
present-outcome [] a h = required-absent a.is_required (λ r. h r refl)
present-outcome (val ∷ vals) a h = and_false a.is_required

get_elem?-map-none {ℓ κ} :
    {A : Type ℓ} {B : Type κ} (f : A → B) (xs : List A) (i : ℕ)
    → get_elem? xs i ≡ none
    → get_elem? (map f xs) i ≡ none
get_elem?-map-none f [] i h = refl
get_elem?-map-none f (x ∷ xs) zero h = cc
get_elem?-map-none f (x ∷ xs) (suc i) h = get_elem?-map-none f xs i h

pub begin-Once :
    (args : List Arg) (left : ℕ → List Text)
    → ((i : ℕ) (a : Arg)
        → get_elem? args i ≡ some a
        → a.multi_allowed ≡ false
        → length (left i) ≤ 1)
    → Once (map reset args) left
unfolding reset
begin-Once args left once i b g m =
    let (a, at, e) = get_elem?-map_from reset args i g in
    subst (λ c. length (left i) + times c.seen ≤ 1) e
      (omega (arith, once i a at (ap (λ c. c.multi_allowed) e ∙ m)))

-- The actions are done from the beginning where none is refused.
pub begin-accepts :
    (help : Option ℕ) (args : List Arg) (actions : List Action)
    → ((i : ℕ) (a : Arg)
        → get_elem? args i ≡ some a
        → a.multi_allowed ≡ false
        → length (received (positionals 0 args) 0 i actions) ≤ 1)
    → places actions ≤ length (positionals 0 args)
    → asks_help help actions ≡ false
    → (q : Parsing) × (act_all help actions (begin args) ≡ parsed q)
begin-accepts help args actions once room unasked =
    let same = positionals-reset 0 args in
    act_all-accepts help actions (begin args)
      (left-Once args (map reset args) 0 actions same
        (begin-Once args (λ i. received (positionals 0 args) 0 i actions) once))
      (omega (arith, ap length same)) unasked

-- An argument in the end, from what it was.
pub final-outcome :
    (help : Option ℕ) (args : List Arg) (actions : List Action) (q : Parsing) (i : ℕ) (b : Arg)
    → act_all help actions (begin args) ≡ parsed q
    → get_elem? (map fill_default q.args) i ≡ some b
    → (a : Arg) × (get_elem? args i ≡ some a)
      × (outcome (received (positionals 0 args) 0 i actions) a ≡ b)
final-outcome help args actions q i b h g = elim (Option-cases (get_elem? args i)) [
  | inl e ↦ absurd (
      none-not-some (
        sym (
          get_elem?-map-none fill_default q.args i
            (act_all-none help actions (begin args) q i h (get_elem?-map-none reset args i e)))
        ∙ g))
  | inr (a, e) ↦ (
    a,
    e,
    ap (λ s. outcome (received s 0 i actions) a) (sym (positionals-reset 0 args))
        ∙ (sym (fill_default-gain (received (positionals 0 (map reset args)) 0 i actions) a)
            ∙ some-injective (
                sym (
                  get_elem?-map fill_default q.args i (
                    act_all-gain help actions (begin args) q i (reset a) h
                      (get_elem?-map reset args i e)))
                ∙ g)),
  )
]

-- `parse` returns for a command line that passes no argument twice that may not be repeated, has no
-- more operands than there are positionals, does not ask for help and gives all that is required.
pub parse-accepts :
    (cli : CliParser) (tokens : List Text) (actions : List Action)
    → Says cli.args false tokens actions
    → ((i : ℕ) (a : Arg)
        → get_elem? cli.args i ≡ some a
        → a.multi_allowed ≡ false
        → length (received (positionals 0 cli.args) 0 i actions) ≤ 1)
    → places actions ≤ length (positionals 0 cli.args)
    → asks_help cli.help_arg actions ≡ false
    → ((i : ℕ) (a : Arg)
        → get_elem? cli.args i ≡ some a
        → a.is_required ≡ true
        → received (positionals 0 cli.args) 0 i actions ≢ [])
    → (cli' : CliParser) × (parse tokens cli ≡ parsed cli')
unfolding parse_actions
parse-accepts cli tokens actions says once room unasked present =
    let (q, e) = begin-accepts cli.help_arg cli.args actions once room unasked in
    let given = check_required-accepts (map fill_default q.args) (λ i b g.
      let (a, at, o) = final-outcome cli.help_arg cli.args actions q i b e g in
      subst (λ c. is_missing c ≡ false) o (present-outcome _ a (present i a at))) in
    (
      record cli { args = map fill_default q.args },
      parse-Says cli tokens actions says
          ∙ (ap
                (λ m. m >>= λ p. check_required (map fill_default p.args) >>= λ args.
                  parsed (record cli { args = args }))
                e
              ∙ ap (λ m. m >>= λ args. parsed (record cli { args = args })) given),
    )
