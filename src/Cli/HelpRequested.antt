-- ===== src/Cli/HelpRequested.antt =====
-- When `parse` of utils/CliParser.cpp asks for help.
use sasc.Prelude.{
  ℕ, ◌+◌, ◌≤◌, ◌≡◌, refl, sym, ap, ◌∙◌, ==_refl, true, false, List, [], ◌∷◌, ◌++◌, map, length,
  get_elem?, Option, none, some, arith,
}
use sasc.Cli.Text.{Text}
use sasc.Cli.Arg.{Arg}
use sasc.Cli.Register.{CliParser, parsed, help_requested, ◌>>=◌}
use sasc.Cli.Parse.{
  Parsing, begin, positionals, fill_default, check_required, pass_flag, parse, is_help, hit_flag,
}
use sasc.Cli.Actions.{Action, pass, give, place, stop, act, act_all, Says}
use sasc.Cli.Names.{>>=-eq-parsed, >>=-cong}
use sasc.Cli.Loop.{act_all-append}
use sasc.Cli.Values.{received}
use sasc.Cli.Results.{parse_actions, parse-Says}
use sasc.Cli.Accepts.{places, asks_help, or-false}
use sasc.Cli.Usage.{begin-accepts}

pass_flag-unasked :
    (help : Option ℕ) (i : ℕ) (p : Parsing)
    → is_help help i ≡ false
    → pass_flag help i p ≡ pass_flag none i p
unfolding pass_flag
pass_flag-unasked help i p h = >>=-cong (hit_flag i p) _ _ (λ q e. rw h refl)

-- Without the help flag it does not matter which it is.
act_all-unasked :
    (help : Option ℕ) (actions : List Action) (p : Parsing)
    → asks_help help actions ≡ false
    → act_all help actions p ≡ act_all none actions p
unfolding act_all act asks_help
act_all-unasked help [] p h = refl
act_all-unasked help (pass i ∷ actions) p h =
    let (here, later) = or-false (is_help help i) (asks_help help actions) h in
    ap (λ m. m >>= act_all help actions) (pass_flag-unasked help i p here)
    ∙ >>=-cong (pass_flag none i p) _ _ (λ q e. act_all-unasked help actions q later)
act_all-unasked help (give i val ∷ actions) p h =
    >>=-cong (act none (give i val) p) _ _ (λ q e. act_all-unasked help actions q h)
act_all-unasked help (place tok ∷ actions) p h =
    >>=-cong (act none (place tok) p) _ _ (λ q e. act_all-unasked help actions q h)
act_all-unasked help (stop ∷ actions) p h =
    act_all-unasked help actions (record p { end_of_flags = true }) h

asks_help-none : (actions : List Action) → asks_help none actions ≡ false
unfolding asks_help
asks_help-none [] = refl
asks_help-none (pass i ∷ actions) = asks_help-none actions
asks_help-none (give i val ∷ actions) = asks_help-none actions
asks_help-none (place tok ∷ actions) = asks_help-none actions
asks_help-none (stop ∷ actions) = asks_help-none actions

places-pass : (before : List Action) (i : ℕ) → places (before ++ pass i ∷ []) ≡ places before
unfolding places
places-pass [] i = refl
places-pass (pass j ∷ before) i = places-pass before i
places-pass (give j val ∷ before) i = places-pass before i
places-pass (place tok ∷ before) i = ap (λ n. n + 1) (places-pass before i)
places-pass (stop ∷ before) i = places-pass before i

-- Where a flag may be passed, the help flag asks for help.
pass_flag-help_requested :
    (help : ℕ) (p q : Parsing)
    → pass_flag none help p ≡ parsed q
    → pass_flag (some help) help p ≡ help_requested
unfolding pass_flag
pass_flag-help_requested help p q h =
    let (r, e, _) = >>=-eq-parsed (hit_flag help p) _ h in rw (e, ==_refl help) refl

-- A command line that comes to the help flag before anything is refused asks for help, whatever is
-- behind that and whatever required argument is missing.
pub parse-help_requested :
    (cli : CliParser) (tokens : List Text) (before after : List Action) (help : ℕ)
    → Says cli.args false tokens (before ++ pass help ∷ after)
    → cli.help_arg ≡ some help
    → ((i : ℕ) (a : Arg)
        → get_elem? cli.args i ≡ some a
        → a.multi_allowed ≡ false
        → length (received (positionals 0 cli.args) 0 i (before ++ pass help ∷ [])) ≤ 1)
    → places before ≤ length (positionals 0 cli.args)
    → asks_help (some help) before ≡ false
    → parse tokens cli ≡ help_requested
unfolding parse_actions act_all act
parse-help_requested cli tokens before after help says flag once room unasked =
    let (q, e) =
      begin-accepts none cli.args (before ++ pass help ∷ []) once
        (omega (arith, places-pass before help)) (asks_help-none (before ++ pass help ∷ [])) in
    let (r, f, g) =
      >>=-eq-parsed (act_all none before (begin cli.args)) (act_all none (pass help ∷ []))
        (sym (act_all-append none before (pass help ∷ []) (begin cli.args)) ∙ e) in
    let (s, k, _) = >>=-eq-parsed (pass_flag none help r) (act_all none []) g in
    let asked =
      act_all-append (some help) before (pass help ∷ after) (begin cli.args)
      ∙ (ap (λ m. m >>= act_all (some help) (pass help ∷ after))
            (act_all-unasked (some help) before (begin cli.args) unasked ∙ f)
          ∙ ap (λ m. m >>= act_all (some help) after) (pass_flag-help_requested help r s k)) in
    parse-Says cli tokens (before ++ pass help ∷ after) says
    ∙ ap
        (λ m. m >>= λ p.
          check_required (map fill_default p.args) >>= λ args. parsed (record cli { args = args }))
        (ap (λ h. act_all h (before ++ pass help ∷ after) (begin cli.args)) flag ∙ asked)
