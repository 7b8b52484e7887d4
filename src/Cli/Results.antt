-- ===== src/Cli/Results.antt =====
-- The end of `parse` of utils/CliParser.cpp: the defaults and the required arguments.
use sasc.Prelude.{
  ℕ, zero, suc, ◌≡◌, refl, sym, ap, subst, ◌∙◌, Bool, true, false, List, [], ◌∷◌, ◌++◌, map,
  get_elem?, Option, none, some, append-nil, append_assoc, All,
}
use sasc.Cli.Text.{Text}
use sasc.Cli.Arg.{Arg, add_value, values_of}
use sasc.Cli.Register.{
  CliResult, CliParser, parsed, ◌>>=◌, find_where, find_long, find_short, has_long, has_short,
}
use sasc.Cli.Parse.{
  Parsing, begin, reset, positionals, fill, fill_default, is_missing, check_required, parse,
}
use sasc.Cli.Actions.{Action, act_all, Says}
use sasc.Cli.Names.{
  >>=-eq-parsed, SameNames, parsed-injective, some-injective, unless-eq-parsed,
  cli_error-not-parsed,
}
use sasc.Cli.Loop.{loop-act_all}
use sasc.Cli.Values.{received, split_all, gain, act_all-gain}

find_where-reset :
    (test : Arg → Bool) (args : List Arg)
    → ((a : Arg) → test (reset a) ≡ test a)
    → find_where test (map reset args) ≡ find_where test args
unfolding find_where
find_where-reset test [] e = refl
find_where-reset test (a ∷ args) e = rw (e a, find_where-reset test args e) refl

pub positionals-reset :
    (k : ℕ) (args : List Arg) → positionals k (map reset args) ≡ positionals k args
unfolding positionals reset
positionals-reset k [] = refl
positionals-reset k (a ∷ args) = rw (positionals-reset (suc k) args) refl

pub reset-SameNames : (args : List Arg) → SameNames args (map reset args)
unfolding find_long find_short reset
reset-SameNames args = record {
  longs = λ name kind. find_where-reset (has_long name kind) args (λ a. refl);
  shorts = λ c kind. find_where-reset (has_short c kind) args (λ a. refl);
  slots = λ k. positionals-reset k args;
}

-- What `parse` comes to once the actions are known.
unfoldable pub parse_actions : List Action → CliParser → CliResult CliParser
unfolding act_all check_required fill_default
parse_actions actions cli = do
  p ← act_all cli.help_arg actions (begin cli.args)
  args ← check_required (map fill_default p.args)
  parsed (record cli { args = args })

-- `parse` of a command line does the actions that it says, in whichever way they are spelled, and then
-- fills in the defaults and checks the required arguments. Errors and the request for help are those
-- of the actions.
pub parse-Says :
    (cli : CliParser) (tokens : List Text) (actions : List Action)
    → Says cli.args false tokens actions
    → parse tokens cli ≡ parse_actions actions cli
unfolding parse parse_actions
parse-Says cli tokens actions says =
    ap
      (λ m. m >>= λ p.
        check_required (map fill_default p.args) >>= λ args. parsed (record cli { args = args }))
      (loop-act_all cli.args cli.help_arg (begin cli.args) (reset-SameNames cli.args) refl says)

pub get_elem?-map {ℓ κ} :
    {A : Type ℓ} {B : Type κ} (f : A → B) (xs : List A) (i : ℕ) {a : A}
    → get_elem? xs i ≡ some a
    → get_elem? (map f xs) i ≡ some (f a)
get_elem?-map f [] i h = cc
get_elem?-map f (x ∷ xs) zero h = ap some (ap f (some-injective h))
get_elem?-map f (x ∷ xs) (suc i) h = get_elem?-map f xs i h

pub check_required-eq :
    (args : List Arg) {xs : List Arg}
    → check_required args ≡ parsed xs
    → (args ≡ xs) × All (λ a. is_missing a ≡ false) args
unfolding check_required
check_required-eq [] h = (parsed-injective h, tt)
check_required-eq (a ∷ args) h =
    let (m, f) = unless-eq-parsed (is_missing a) _ _ (cli_error-not-parsed _) h in
    let (ys, e, g) = >>=-eq-parsed (check_required args) _ f in
    let (same, all) = check_required-eq args e in (ap (◌∷◌ a) same ∙ parsed-injective g, (m, all))

pub All-get {ℓ κ} :
    {A : Type ℓ} (P : A → Type κ) (xs : List A) (i : ℕ) {a : A}
    → All P xs
    → get_elem? xs i ≡ some a
    → P a
All-get P [] i all h = cc
All-get P (x ∷ xs) zero all h = subst P (some-injective h) all.0
All-get P (x ∷ xs) (suc i) all h = All-get P xs i all.1 h

-- What is in an argument that received these values: the pieces of its values, or of its default.
unfoldable pub outcome : List Text → Arg → Arg
unfolding split_all values_of
outcome [] a = record a {
  seen = false;
  parsed_values = elim a.default_val [ none ↦ [] | some val ↦ values_of a.split_sep val ];
}
outcome (val ∷ vals) a = record a {
  seen = true;
  parsed_values = split_all a.split_sep (val ∷ vals);
}

gain-split_all :
    (vals before : List Text) (a : Arg)
    → gain vals (record a { seen = true; parsed_values = before })
      ≡ record a { seen = true; parsed_values = before ++ split_all a.split_sep vals }
unfolding gain split_all add_value
gain-split_all [] before a =
    ap (λ v. record a { seen = true; parsed_values = v }) (sym (append-nil before))
gain-split_all (val ∷ vals) before a =
    gain-split_all vals (before ++ values_of a.split_sep val) a
    ∙ ap (λ v. record a { seen = true; parsed_values = v })
        (append_assoc before (values_of a.split_sep val) (split_all a.split_sep vals))

fill-reset :
    (d : Option Text) (a : Arg)
    → fill d (reset a) ≡ record a {
      seen = false;
      parsed_values = elim d [ none ↦ [] | some val ↦ values_of a.split_sep val ];
    }
unfolding reset add_value
fill-reset none a = refl
fill-reset (some val) a = refl

pub fill_default-gain :
    (vals : List Text) (a : Arg) → fill_default (gain vals (reset a)) ≡ outcome vals a
unfolding gain reset outcome fill_default add_value
fill_default-gain [] a = fill-reset a.default_val a
fill_default-gain (val ∷ vals) a = rw (gain-split_all vals (values_of a.split_sep val) a) refl

pub parsed-fields :
    (cli cli' : CliParser) (tokens : List Text) (actions : List Action)
    → Says cli.args false tokens actions
    → parse tokens cli ≡ parsed cli'
    → (p : Parsing) × (act_all cli.help_arg actions (begin cli.args) ≡ parsed p)
      × (map fill_default p.args ≡ cli'.args)
      × All (λ a. is_missing a ≡ false) (map fill_default p.args)
unfolding parse_actions
parsed-fields cli cli' tokens actions says h =
    let (p, e, f) =
      >>=-eq-parsed (act_all cli.help_arg actions (begin cli.args)) _
        (sym (parse-Says cli tokens actions says) ∙ h) in
    let (xs, g, k) = >>=-eq-parsed (check_required (map fill_default p.args)) _ f in
    let (same, all) = check_required-eq (map fill_default p.args) g in
    (p, e, same ∙ ap (λ c. c.args) (parsed-injective k), all)

-- When `parse` returns for a command line that says some actions, each argument holds what they give it: it is seen if it receives a
-- value, and its values are the pieces of what it receives in order, or those of its default where it
-- receives nothing. The positionals receive the operands in the order of registration.
pub parse-outcome :
    (cli cli' : CliParser) (tokens : List Text) (actions : List Action) (i : ℕ) (a : Arg)
    → Says cli.args false tokens actions
    → parse tokens cli ≡ parsed cli'
    → get_elem? cli.args i ≡ some a
    → get_elem? cli'.args i ≡ some (outcome (received (positionals 0 cli.args) 0 i actions) a)
parse-outcome cli cli' tokens actions i a says h g =
    let (p, e, same, _) = parsed-fields cli cli' tokens actions says h in
    let at = get_elem?-map reset cli.args i g in
    let gained_at = act_all-gain cli.help_arg actions (begin cli.args) p i (reset a) e at in
    let slots = positionals-reset 0 cli.args in
    subst (λ xs. get_elem? xs i ≡ some (outcome (received (positionals 0 cli.args) 0 i actions) a))
      same
      (subst
        (λ s. get_elem? (map fill_default p.args) i ≡ some (outcome (received s 0 i actions) a))
        slots
        (get_elem?-map fill_default p.args i gained_at
          ∙ ap some
              (fill_default-gain (received (positionals 0 (map reset cli.args)) 0 i actions) a)))
