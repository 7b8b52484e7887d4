-- ===== src/Cli/Loop.antt =====
-- The loop of `parse` of utils/CliParser.cpp over the tokens of a command line.
use sasc.Prelude.{
  true-not-false, ℕ, ◌≡◌, ◌≢◌, refl, sym, ap, subst, ◌∙◌, ◌==◌, Bool, true, false, not, ◌&&◌, ◌||◌,
  List, [], ◌∷◌, ◌++◌, Option, Bool-cases, inl, inr,
}
use sasc.Frontend.Token.{chars}
use sasc.Cli.Text.{Text, same_text, same_text-eq}
use sasc.Cli.Arg.{Arg}
use sasc.Cli.Register.{parsed, ◌>>=◌}
use sasc.Cli.Parse.{Parsing, take_positional, is_operand, option_token, step, head?, loop}
use sasc.Cli.Actions.{
  Action, pass, give, place, act, act_all, Cluster, nothing, short_flag, short_attached,
  short_separate, Opt, long_flag, long_inline, long_separate, short, Says, ended, sentinel,
  operand_behind, operand, option_alone, option_with,
}
use sasc.Cli.Names.{
  >>=_assoc, >>=-cong, >>=-eq-parsed, SameNames, SameNames-trans, Keeps, Keeps-refl, Keeps-trans,
  pass_flag-Keeps, set_option-Keeps, take_positional-Keeps, parsed-injective,
}
use sasc.Cli.Spelling.{Opt-done}
use Prim.Native.Char.{Char, code}

pub act_all-append :
    (help : Option ℕ) (here actions : List Action) (p : Parsing)
    → act_all help (here ++ actions) p ≡ (act_all help here p >>= act_all help actions)
unfolding act_all
act_all-append help [] actions p = refl
act_all-append help (a ∷ here) actions p =
    >>=-cong (act help a p) _ _ (λ q e. act_all-append help here actions q)
    ∙ sym (>>=_assoc (act help a p) (act_all help here) (act_all help actions))

give-Keeps :
    (help : Option ℕ) (i : ℕ) (val : Text) (p q : Parsing)
    → act_all help (give i val ∷ []) p ≡ parsed q
    → Keeps p q
unfolding act_all act
give-Keeps help i val p q h =
    let (r, e, f) = >>=-eq-parsed (act help (give i val) p) parsed h in
    subst (Keeps p) (parsed-injective f) (set_option-Keeps i val p r e)

Cluster-Keeps :
    {args : List Arg} (help : Option ℕ) {next : Option Text} {cs : Text} {actions : List Action}
    {taken : Bool} (p q : Parsing)
    → Cluster args next cs actions taken
    → act_all help actions p ≡ parsed q
    → Keeps p q
unfolding act_all act
Cluster-Keeps help p q nothing h = subst (Keeps p) (parsed-injective h) (Keeps-refl p)
Cluster-Keeps help p q (short_flag c i {actions = actions} f k) h =
    let (r, e, g) = >>=-eq-parsed (act help (pass i) p) (act_all help actions) h in
    Keeps-trans (pass_flag-Keeps help i p r e) (Cluster-Keeps help r q k g)
Cluster-Keeps help p q (short_attached c d cs i f o) h = give-Keeps help i (d ∷ cs) p q h
Cluster-Keeps help p q (short_separate c val i f o e) h = give-Keeps help i val p q h

Opt-Keeps :
    {args : List Arg} (help : Option ℕ) {next : Option Text} {body : Text} {actions : List Action}
    {taken : Bool} (p q : Parsing)
    → Opt args next body actions taken
    → act_all help actions p ≡ parsed q
    → Keeps p q
unfolding act_all act
Opt-Keeps help p q (long_flag name i h f) e =
    let (r, a, b) = >>=-eq-parsed (act help (pass i) p) parsed e in
    subst (Keeps p) (parsed-injective b) (pass_flag-Keeps help i p r a)
Opt-Keeps help p q (long_inline name val i h f o) e = give-Keeps help i val p q e
Opt-Keeps help p q (long_separate name val i h f o n) e = give-Keeps help i val p q e
Opt-Keeps help p q (short c h o k) e = Cluster-Keeps help p q k e

not-same_text : (s t : Text) → s ≢ t → same_text s t ≡ false
not-same_text s t n = elim (Bool-cases (same_text s t)) [
  | inl e ↦ absurd (n (same_text-eq s t e))
  | inr e ↦ e
]

second-eq : {a b c d : Char} {cs ds : Text} → ◌≡◌ {A = Text} (a ∷ (c ∷ cs)) (b ∷ (d ∷ ds)) → c ≡ d
second-eq e = cc

Opt-sentinel :
    {args : List Arg} {next : Option Text} {body : Text} {actions : List Action} {taken : Bool}
    → Opt args next body actions taken
    → same_text ("-" ∷ body) (chars "--") ≡ false
Opt-sentinel (long_flag name i h f) = not-same_text _ _ (λ e. cc (h.is_cons))
Opt-sentinel (long_inline name val i h f o) = not-same_text _ _ (λ e. cc (h.is_cons))
Opt-sentinel (long_separate name val i h f o n) = not-same_text _ _ (λ e. cc (h.is_cons))
Opt-sentinel (short c {cs = cs} h o k) =
    not-same_text _ _ (λ e. true-not-false (subst (λ x. (code x == 45) ≡ false) (second-eq e) h))

Opt-operand :
    {args : List Arg} {next : Option Text} {body : Text} {actions : List Action} {taken : Bool}
    → Opt args next body actions taken
    → is_operand ("-" ∷ body) ≡ false
unfolding is_operand
Opt-operand (long_flag name i h f) = refl
Opt-operand (long_inline name val i h f o) = refl
Opt-operand (long_separate name val i h f o n) = refl
Opt-operand (short c h o k) = o

step-option :
    (help : Option ℕ) (body : Text) (next : Option Text) (p : Parsing)
    → same_text ("-" ∷ body) (chars "--") ≡ false
    → is_operand ("-" ∷ body) ≡ false
    → p.end_of_flags ≡ false
    → step help ("-" ∷ body) next p ≡ option_token help body next p
unfolding step
step-option help body next p s o f = rw (s, o, f) refl

option-loop :
    (args : List Arg) (help : Option ℕ) {body : Text} {next : Option Text} {here : List Action}
    {taken : Bool} (tokens : List Text) (actions : List Action) (p : Parsing)
    → SameNames args p.args
    → p.end_of_flags ≡ false
    → Opt args next body here taken
    → ((q : Parsing)
        → SameNames args q.args
        → q.end_of_flags ≡ false
        → loop help taken tokens q ≡ act_all help actions q)
    → (step help ("-" ∷ body) next p >>= λ r. loop help r.1 tokens r.0)
      ≡ act_all help (here ++ actions) p
option-loop args help {body = body} {next = next} {here = here} {taken = taken} tokens actions p n f
      o rest =
    ap (λ m. m >>= λ r. loop help r.1 tokens r.0)
      (step-option help body next p (Opt-sentinel o) (Opt-operand o) f ∙ Opt-done args help p n o)
    ∙ (>>=_assoc (act_all help here p) (λ q. parsed (q, taken)) (λ r. loop help r.1 tokens r.0)
        ∙ (>>=-cong (act_all help here p) _ _ (λ q e.
              let k = Opt-Keeps help p q o e in rest q (SameNames-trans n k.names) (k.flags ∙ f))
            ∙ sym (act_all-append help here actions p)))

step-operand :
    (help : Option ℕ) (tok : Text) (next : Option Text) (p : Parsing)
    → same_text tok (chars "--") && not p.end_of_flags ≡ false
    → p.end_of_flags || is_operand tok ≡ true
    → step help tok next p ≡ (take_positional tok p >>= λ q. parsed (q, false))
unfolding step
step-operand help tok next p s o = rw (s, o) refl

operand-loop :
    (args : List Arg) (help : Option ℕ) (tok : Text) (next : Option Text) (tokens : List Text)
    (actions : List Action) (p : Parsing)
    → SameNames args p.args
    → same_text tok (chars "--") && not p.end_of_flags ≡ false
    → p.end_of_flags || is_operand tok ≡ true
    → ((q : Parsing)
        → SameNames args q.args
        → q.end_of_flags ≡ p.end_of_flags
        → loop help false tokens q ≡ act_all help actions q)
    → (step help tok next p >>= λ r. loop help r.1 tokens r.0)
      ≡ act_all help (place tok ∷ actions) p
unfolding act_all act
operand-loop args help tok next tokens actions p n s o rest =
    ap (λ m. m >>= λ r. loop help r.1 tokens r.0) (step-operand help tok next p s o)
    ∙ (>>=_assoc (take_positional tok p) (λ q. parsed (q, false)) (λ r. loop help r.1 tokens r.0)
        ∙ >>=-cong (take_positional tok p) _ _ (λ q e.
          let k = take_positional-Keeps tok p q e in rest q (SameNames-trans n k.names) k.flags))

sentinel-not-operand : (tok : Text) → is_operand tok ≡ true → same_text tok (chars "--") ≡ false
unfolding is_operand
sentinel-not-operand tok o =
    not-same_text tok (chars "--") (λ e. true-not-false (sym o ∙ ap is_operand e))

step-sentinel :
    (help : Option ℕ) (next : Option Text) (p : Parsing)
    → p.end_of_flags ≡ false
    → step help (chars "--") next p ≡ parsed (record p { end_of_flags = true }, false)
unfolding step
step-sentinel help next p f = rw f refl

and_false : (b : Bool) → b && false ≡ false
and_false true = refl
and_false false = refl

-- The loop does what the tokens say.
pub loop-act_all :
    (args : List Arg) (help : Option ℕ) {over : Bool} {tokens : List Text} {actions : List Action}
    (p : Parsing)
    → SameNames args p.args
    → p.end_of_flags ≡ over
    → Says args over tokens actions
    → loop help false tokens p ≡ act_all help actions p
unfolding loop act_all act
loop-act_all args help p n f ended = refl
loop-act_all args help p n f (sentinel {tokens = tokens} says) =
    ap (λ m. m >>= λ r. loop help r.1 tokens r.0) (step-sentinel help (head? tokens) p f)
    ∙ loop-act_all args help (record p { end_of_flags = true }) n refl says
loop-act_all args help p n f (operand_behind tok {tokens = tokens} {actions = actions} says) =
    operand-loop args help tok (head? tokens) tokens actions p n (rw f (and_false _)) (rw f refl)
      (λ q m g. loop-act_all args help q m (g ∙ f) says)
loop-act_all args help p n f (operand tok {tokens = tokens} {actions = actions} o says) =
    operand-loop args help tok (head? tokens) tokens actions p n
      (rw (sentinel-not-operand tok o) refl) (rw (f, o) refl)
      (λ q m g. loop-act_all args help q m (g ∙ f) says)
loop-act_all args help p n f (option_alone body {tokens = tokens} {actions = actions} o says) =
    option-loop args help tokens actions p n f o (λ q m g. loop-act_all args help q m g says)
loop-act_all args help p n f (option_with body val {tokens = tokens} {actions = actions} o says) =
    option-loop args help (val ∷ tokens) actions p n f o
      (λ q m g. loop-act_all args help q m g says)
