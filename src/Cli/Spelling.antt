-- ===== src/Cli/Spelling.antt =====
-- `parse` of utils/CliParser.cpp on a command line, against the actions that it spells.
use sasc.Prelude.{
  ℕ, ◌≡◌, refl, sym, ap, ◌∙◌, Bool, true, false, List, [], ◌∷◌, ◌++◌, Option, none, some,
}
use sasc.Cli.Text.{Text, cut_at, is_empty}
use sasc.Cli.Arg.{Arg, flag, option}
use sasc.Cli.Register.{CliResult, parsed, find_long, ◌>>=◌}
use sasc.Cli.Parse.{
  Parsing, set_option, pass_flag, value_for, named_option, long_option, short_options, option_token,
}
use sasc.Cli.Actions.{
  Action, pass, give, act, act_all, Lacks, IsName, Cluster, nothing, short_flag, short_attached,
  short_separate, Opt, long_flag, long_inline, long_separate, short,
}
use sasc.Cli.Names.{>>=_assoc, >>=-cong, SameNames, SameNames-trans, pass_flag-Keeps}

-- What a token comes to: its actions, and whether the next token is taken.
abbrev pub done : Option ℕ → List Action → Bool → Parsing → CliResult (Parsing × Bool)
done help actions taken p = act_all help actions p >>= λ q. parsed (q, taken)

done-give :
    (help : Option ℕ) (i : ℕ) (val : Text) (taken : Bool) (p : Parsing)
    → (set_option i val p >>= λ q. parsed (q, taken)) ≡ done help (give i val ∷ []) taken p
unfolding act_all act
done-give help i val taken p = sym (>>=_assoc (set_option i val p) parsed (λ q. parsed (q, taken)))

Cluster-done :
    (args : List Arg) (help : Option ℕ) {next : Option Text} {cs : Text} {actions : List Action}
    {taken : Bool} (p : Parsing)
    → SameNames args p.args
    → Cluster args next cs actions taken
    → short_options help cs next p ≡ done help actions taken p
unfolding short_options act_all act
Cluster-done args help p n nothing = refl
Cluster-done args help {next = next} p n
      (short_flag c i {cs = cs} {actions = actions} {taken = taken} f k) =
    rw (n.shorts c flag ∙ f, short_options)
      (>>=-cong (pass_flag help i p) _ _ (λ q e.
          Cluster-done args help q (SameNames-trans n (pass_flag-Keeps help i p q e).names) k)
        ∙ sym (>>=_assoc (pass_flag help i p) (act_all help actions) (λ q. parsed (q, taken))))
Cluster-done args help p n (short_attached c d cs i f o) =
    rw (n.shorts c flag ∙ f, n.shorts c option ∙ o, short_options)
      (done-give help i (d ∷ cs) false p)
Cluster-done args help p n (short_separate c val i f o e) =
    rw (n.shorts c flag ∙ f, n.shorts c option ∙ o, e, short_options) (done-give help i val true p)

cut_at-name : (name : Text) → Lacks "=" name → cut_at "=" name ≡ (name, none)
unfolding cut_at
cut_at-name [] l = refl
cut_at-name (c ∷ cs) (h, l) = rw (cut_at-name cs l, h) refl

cut_at-equals :
    (name val : Text) → Lacks "=" name → cut_at "=" (name ++ "=" ∷ val) ≡ (name, some val)
unfolding cut_at
cut_at-equals [] val l = refl
cut_at-equals (c ∷ cs) val (h, l) = rw (cut_at-equals cs val l, h) refl

not-is_empty : (name : Text) → IsName name → is_empty name ≡ false
not-is_empty name h = rw h.is_cons refl

done-pass :
    (help : Option ℕ) (i : ℕ) (p : Parsing)
    → (pass_flag help i p >>= λ q. parsed (q, false)) ≡ done help (pass i ∷ []) false p
unfolding act_all act
done-pass help i p = sym (>>=_assoc (pass_flag help i p) parsed (λ q. parsed (q, false)))

named-flag :
    (args : List Arg) (help : Option ℕ) (name : Text) (next : Option Text) (i : ℕ) (p : Parsing)
    → SameNames args p.args
    → IsName name
    → find_long name flag args ≡ some i
    → named_option help name none next p ≡ done help (pass i ∷ []) false p
unfolding named_option
named-flag args help name next i p n h f =
    rw (not-is_empty name h, n.longs name flag ∙ f, named_option) (done-pass help i p)

named-option :
    (args : List Arg) (help : Option ℕ) (name : Text) (here next : Option Text) (val : Text)
    (taken : Bool) (i : ℕ) (p : Parsing)
    → SameNames args p.args
    → IsName name
    → find_long name flag args ≡ none
    → find_long name option args ≡ some i
    → value_for here next ≡ parsed (val, taken)
    → named_option help name here next p ≡ done help (give i val ∷ []) taken p
unfolding named_option
named-option args help name here next val taken i p n h f o v =
    rw (not-is_empty name h, n.longs name flag ∙ f, n.longs name option ∙ o, v, named_option)
      (done-give help i val taken p)

long_option-named :
    (help : Option ℕ) (token_body name : Text) (here next : Option Text) (p : Parsing)
    → cut_at "=" token_body ≡ (name, here)
    → long_option help token_body next p ≡ named_option help name here next p
unfolding long_option
long_option-named help token_body name here next p e =
    ap (λ split. named_option help split.0 split.1 next p) e

pub Opt-done :
    (args : List Arg) (help : Option ℕ) {next : Option Text} {body : Text} {actions : List Action}
    {taken : Bool} (p : Parsing)
    → SameNames args p.args
    → Opt args next body actions taken
    → option_token help body next p ≡ done help actions taken p
unfolding option_token long_option value_for
Opt-done args help {next = next} p n (long_flag name i h f) =
    long_option-named help name name none next p (cut_at-name name h.lacks)
    ∙ (named-flag args help name next i p n h f)
Opt-done args help {next = next} p n (long_inline name val i h f o) =
    long_option-named help (name ++ "=" ∷ val) name (some val) next p
      (cut_at-equals name val h.lacks)
    ∙ (named-option args help name (some val) next val false i p n h f o refl)
Opt-done args help {next = next} p n (long_separate name val i h f o e) =
    long_option-named help name name none next p (cut_at-name name h.lacks)
    ∙ (named-option args help name none next val true i p n h f o (ap (value_for none) e))
Opt-done args help p n (short c h o k) = rw (h, option_token) (Cluster-done args help p n k)
