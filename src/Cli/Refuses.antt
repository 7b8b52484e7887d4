-- ===== src/Cli/Refuses.antt =====
-- What `parse` of utils/CliParser.cpp refuses: what is known of a command line that it accepts.
use sasc.Prelude.{
  true-not-false, ℕ, ◌+◌, ◌≤◌, ◌≡◌, ◌≢◌, refl, sym, ap, subst, ◌∙◌, ◌&&◌, ◌||◌, if◌then◌else◌, Bool,
  true, false, List, [], ◌∷◌, map, length, get_elem?, get_elem?-lt, Option, some, arith,
}
use sasc.Cli.Text.{Text}
use sasc.Cli.Arg.{Arg, positional, same_kind}
use sasc.Cli.Register.{CliParser, parsed}
use sasc.Cli.Parse.{
  Parsing, begin, reset, positionals, fill_default, is_missing, set_option, pass_flag,
  take_positional, parse,
}
use sasc.Cli.Actions.{Action, pass, give, place, stop, act, act_all, Says}
use sasc.Cli.Names.{
  >>=-eq-parsed, recorded, placed, record_value-SameNames, pass_flag-recorded, set_option-recorded,
  take_positional-placed,
}
use sasc.Cli.Values.{received, gained, record_value-at, received-placed, act_all-gain}
use sasc.Cli.Results.{
  outcome, positionals-reset, parsed-fields, get_elem?-map, All-get, fill_default-gain,
}
use sasc.Cli.Repeats.{
  OnceNamed, set_option-not_repeat, pass_flag-not_repeat, Once-recorded, same-Once, slot-other,
}
use sasc.Cli.Accepts.{places, asks_help, times}

-- What is asked of the actions of a command line: no flag or option is passed twice that may not be
-- repeated, there are no more operands than positionals, help is not asked for, and all that is
-- required is given.
pub record IsAccepted (cli : CliParser) (actions : List Action) : Type 0 where
  pub once :
      (i : ℕ) (a : Arg)
      → get_elem? cli.args i ≡ some a
      → same_kind a.kind positional ≡ false
      → a.multi_allowed ≡ false
      → length (received (positionals 0 cli.args) 0 i actions) ≤ 1
  pub room : places actions ≤ length (positionals 0 cli.args)
  pub unasked : asks_help cli.help_arg actions ≡ false
  pub present :
      (i : ℕ) (a : Arg)
      → get_elem? cli.args i ≡ some a
      → a.is_required ≡ true
      → received (positionals 0 cli.args) 0 i actions ≢ []

-- What has to hold for actions to be done.
record Fits (help : Option ℕ) (actions : List Action) (p : Parsing) : Type 0 where
  pub once : OnceNamed p.args (λ i. received (positionals 0 p.args) p.pos_index i actions)
  pub room : places actions + p.pos_index ≤ length (positionals 0 p.args)
  pub unasked : asks_help help actions ≡ false

none-Once : (args : List Arg) → OnceNamed args (λ i. [])
none-Once args i a g n m = at_most a.seen
  where
    at_most : (b : Bool) → 0 + times b ≤ 1
    at_most true = omega arith
    at_most false = omega arith

act_all-Fits :
    (help : Option ℕ) (actions : List Action) (p q : Parsing)
    → p.pos_index ≤ length (positionals 0 p.args)
    → act_all help actions p ≡ parsed q
    → Fits help actions p
unfolding act_all act received places asks_help
act_all-Fits help [] p q w h = record {
  once = none-Once p.args;
  room = omega (arith, w);
  unasked = refl;
}
act_all-Fits help (pass j ∷ actions) p q w h =
    let (r, e, f) = >>=-eq-parsed (pass_flag help j p) (act_all help actions) h in
    let (other, put) = pass_flag-recorded help j p r e in
    let same = (record_value-SameNames j [] p.args).slots 0 in
    let left = λ (i : ℕ). received (positionals 0 p.args) p.pos_index i actions in
    let rest =
      act_all-Fits help actions (recorded j [] p) q (omega (arith, w, ap length same))
        (ap (act_all help actions) put ∙ f) in
    record {
      once =
          Once-recorded j [] p.args left (pass_flag-not_repeat help j p r e)
            (same-Once p.args _ p.pos_index actions same rest.once);
      room = omega (arith, rest.room, ap length same);
      unasked = ap (λ b. b || asks_help help actions) other ∙ rest.unasked;
    }
act_all-Fits help (give j val ∷ actions) p q w h =
    let (r, e, f) = >>=-eq-parsed (set_option j val p) (act_all help actions) h in
    let same = (record_value-SameNames j val p.args).slots 0 in
    let left = λ (i : ℕ). received (positionals 0 p.args) p.pos_index i actions in
    let rest =
      act_all-Fits help actions (recorded j val p) q (omega (arith, w, ap length same))
        (ap (act_all help actions) (set_option-recorded j val p r e) ∙ f) in
    record {
      once =
          Once-recorded j val p.args left (set_option-not_repeat j val p r e)
            (same-Once p.args _ p.pos_index actions same rest.once);
      room = omega (arith, rest.room, ap length same);
      unasked = rest.unasked;
    }
act_all-Fits help (place tok ∷ actions) p q w h =
    let (r, e, f) = >>=-eq-parsed (take_positional tok p) (act_all help actions) h in
    let (j, slot, put) = take_positional-placed tok p r e in
    let slots = positionals 0 p.args in
    let same = (record_value-SameNames j tok p.args).slots 0 in
    let rest =
      act_all-Fits help actions (placed j tok p) q
        (omega (arith, get_elem?-lt slots p.pos_index slot, ap length same))
        (ap (act_all help actions) put ∙ f) in
    record {
      once = λ i a g n m.
          let others = received slots (p.pos_index + 1) i actions in
          let apart = slot-other p.args p.pos_index j i a slot g n in
          subst (λ vals. length vals + times a.seen ≤ 1)
            (ap (λ b. if b then tok ∷ others else others) (sym apart)
              ∙ received-placed slots p.pos_index i j tok actions slot)
            (same-Once p.args _ (p.pos_index + 1) actions same rest.once i a
              (record_value-at j tok p.args i a g
                ∙ ap (λ b. some (if b then gained tok a else a)) apart)
              n m);
      room = omega (arith, rest.room, ap length same);
      unasked = rest.unasked;
    }
act_all-Fits help (stop ∷ actions) p q w h =
    let rest = act_all-Fits help actions (record p { end_of_flags = true }) q w h in
    record { once = rest.once; room = rest.room; unasked = rest.unasked }

required-given :
    (vals : List Text) (a : Arg)
    → is_missing (outcome vals a) ≡ false
    → a.is_required ≡ true
    → vals ≢ []
unfolding is_missing outcome
required-given vals a m r e =
    true-not-false (sym (ap (λ b. b && true) r) ∙ subst (λ v. is_missing (outcome v a) ≡ false) e m)

-- A command line for which `parse` returns passes no flag or option twice that may not be repeated, has
-- no more operands than there are positionals, does not ask for help, and gives all that is required.
pub parse-IsAccepted :
    (cli cli' : CliParser) (tokens : List Text) (actions : List Action)
    → Says cli.args false tokens actions
    → parse tokens cli ≡ parsed cli'
    → IsAccepted cli actions
unfolding reset
parse-IsAccepted cli cli' tokens actions says h =
    let (q, e, same, all) = parsed-fields cli cli' tokens actions says h in
    let fits = act_all-Fits cli.help_arg actions (begin cli.args) q (omega arith) e in
    let slots = positionals-reset 0 cli.args in
    record {
      once = λ i a g n m. omega (
        arith,
        same-Once cli.args (map reset cli.args) 0 actions slots fits.once i (reset a)
            (get_elem?-map reset cli.args i g) n m,
      );
      room = omega (arith, fits.room, ap length slots);
      unasked = fits.unasked;
      present = λ i a g r.
          required-given _ a
            (subst (λ s. is_missing (outcome (received s 0 i actions) a) ≡ false) slots
              (subst (λ c. is_missing c ≡ false)
                (fill_default-gain (received (positionals 0 (map reset cli.args)) 0 i actions) a)
                (All-get (λ c. is_missing c ≡ false) (map fill_default q.args) i all
                  (get_elem?-map fill_default q.args i (
                    act_all-gain cli.help_arg actions (begin cli.args) q i (reset a) e
                      (get_elem?-map reset cli.args i g))))))
            r;
    }
