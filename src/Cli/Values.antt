-- ===== src/Cli/Values.antt =====
-- What `parse` of utils/CliParser.cpp leaves in each argument, told from what the command line says.
use sasc.Prelude.{
  ℕ, zero, suc, ◌+◌, ◌≡◌, refl, sym, ap, subst, ◌∙◌, ◌==◌, if◌then◌else◌, Bool, true, false, List,
  [], ◌∷◌, ◌++◌, get_elem?, set, get_elem?-lt, get_elem?-set_self, ==_iff, Bool-cases, arith,
  Option, none, some, Option-cases, inl, inr,
}
use sasc.Cli.Text.{Text}
use sasc.Cli.Arg.{Arg, add_value, values_of}
use sasc.Cli.Register.{parsed}
use sasc.Cli.Parse.{Parsing, positionals, record_value}
use sasc.Cli.Actions.{Action, pass, give, place, stop, act, act_all}
use sasc.Cli.Names.{
  >>=-eq-parsed, recorded, placed, pass_flag-recorded, set_option-recorded, take_positional-placed,
  parsed-injective, record_value-SameNames,
}
use Prim.Native.Char.{Char}

-- The values that the argument at position `i` receives, where `n` of the positional `slots` are
-- filled. A flag receives the empty text each time it is passed.
unfoldable pub received : List ℕ → ℕ → ℕ → List Action → List Text
received slots n i [] = []
received slots n i (pass j ∷ actions) =
    let others = received slots n i actions in if j == i then [] ∷ others else others
received slots n i (give j val ∷ actions) =
    let others = received slots n i actions in if j == i then val ∷ others else others
received slots n i (place tok ∷ actions) =
    let others = received slots (n + 1) i actions in
    elim (get_elem? slots n) [ none ↦ others | some j ↦ if j == i then tok ∷ others else others ]
received slots n i (stop ∷ actions) = received slots n i actions

abbrev pub gained : Text → Arg → Arg
gained val a = record (add_value val a) { seen = true }

unfoldable pub gain : List Text → Arg → Arg
gain [] a = a
gain (val ∷ vals) a = gain vals (gained val a)

-- The values split on the separator, if there is one, one behind the other.
unfoldable pub split_all : Option Char → List Text → List Text
split_all sep [] = []
split_all sep (val ∷ vals) = values_of sep val ++ split_all sep vals

get_elem?-set_other {ℓ} :
    {A : Type ℓ} (xs : List A) (i j : ℕ) (v : A)
    → (j == i) ≡ false
    → get_elem? (set xs j v) i ≡ get_elem? xs i
get_elem?-set_other [] i j v h = refl
get_elem?-set_other (x ∷ xs) zero zero v h = ground (arith, h)
get_elem?-set_other (x ∷ xs) zero (suc j) v h = refl
get_elem?-set_other (x ∷ xs) (suc i) zero v h = refl
get_elem?-set_other (x ∷ xs) (suc i) (suc j) v h = get_elem?-set_other xs i j v (ground arith)

pub record_value_self :
    (val : Text) (args : List Arg) (i : ℕ) (a : Arg)
    → get_elem? args i ≡ some a
    → get_elem? (record_value i val args) i ≡ some (gained val a)
unfolding record_value
record_value_self val args i a h =
    rw (h, record_value) (get_elem?-set_self args i (gained val a) (get_elem?-lt args i h))

record_value-other :
    (j : ℕ) (val : Text) (args : List Arg) (i : ℕ)
    → (j == i) ≡ false
    → get_elem? (record_value j val args) i ≡ get_elem? args i
unfolding record_value
record_value-other j val args i e = elim (Option-cases (get_elem? args j)) [
  | inl h ↦ rw (h, record_value) refl
  | inr (b, h) ↦ rw (h, record_value) (get_elem?-set_other args i j (gained val b) e)
]

pub record_value-at :
    (j : ℕ) (val : Text) (args : List Arg) (i : ℕ) (a : Arg)
    → get_elem? args i ≡ some a
    → get_elem? (record_value j val args) i ≡ some (if j == i then gained val a else a)
record_value-at j val args i a h = elim (Bool-cases (j == i)) [
  | inl e ↦ rw e (
      subst (λ k. get_elem? (record_value k val args) i ≡ some (gained val a))
        (sym ((==_iff j i).0 e)) (record_value_self val args i a h))
  | inr e ↦ rw e (record_value-other j val args i e ∙ h)
]

pub received-placed :
    (slots : List ℕ) (n i j : ℕ) (tok : Text) (actions : List Action)
    → get_elem? slots n ≡ some j
    → (if j == i then tok ∷ received slots (n + 1) i actions else received slots (n + 1) i actions)
      ≡ received slots n i (place tok ∷ actions)
unfolding received
received-placed slots n i j tok actions h = rw (h, received) refl

gain-if :
    (b : Bool) (val : Text) (others : List Text) (a : Arg)
    → gain others (if b then gained val a else a) ≡ gain (if b then val ∷ others else others) a
unfolding gain
gain-if true val others a = refl
gain-if false val others a = refl

recorded-gain :
    (j : ℕ) (val : Text) (args xs : List Arg) (i : ℕ) (a : Arg) (others : List Text)
    → get_elem? args i ≡ some a
    → ((b : Arg)
        → get_elem? (record_value j val args) i ≡ some b
        → get_elem? xs i ≡ some (gain others b))
    → get_elem? xs i ≡ some (gain (if j == i then val ∷ others else others) a)
recorded-gain j val args xs i a others h rest =
    rest _ (record_value-at j val args i a h) ∙ ap some (gain-if (j == i) val others a)

-- An argument gains what it receives.
pub act_all-gain :
    (help : Option ℕ) (actions : List Action) (p q : Parsing) (i : ℕ) (a : Arg)
    → act_all help actions p ≡ parsed q
    → get_elem? p.args i ≡ some a
    → get_elem? q.args i ≡ some (gain (received (positionals 0 p.args) p.pos_index i actions) a)
unfolding act_all act received gain
act_all-gain help [] p q i a h g = subst (λ r. get_elem? r.args i ≡ some a) (parsed-injective h) g
act_all-gain help (pass j ∷ actions) p q i a h g =
    let (r, e, f) = >>=-eq-parsed (act help (pass j) p) (act_all help actions) h in
    let same = (record_value-SameNames j [] p.args).slots 0 in
    let on = ap (act_all help actions) (pass_flag-recorded help j p r e).1 ∙ f in
    recorded-gain j [] p.args q.args i a _ g (λ b at.
      subst (λ s. get_elem? q.args i ≡ some (gain (received s p.pos_index i actions) b)) same
        (act_all-gain help actions (recorded j [] p) q i b on at))
act_all-gain help (give j val ∷ actions) p q i a h g =
    let (r, e, f) = >>=-eq-parsed (act help (give j val) p) (act_all help actions) h in
    let same = (record_value-SameNames j val p.args).slots 0 in
    let on = ap (act_all help actions) (set_option-recorded j val p r e) ∙ f in
    recorded-gain j val p.args q.args i a _ g (λ b at.
      subst (λ s. get_elem? q.args i ≡ some (gain (received s p.pos_index i actions) b)) same
        (act_all-gain help actions (recorded j val p) q i b on at))
act_all-gain help (place tok ∷ actions) p q i a h g =
    let (r, e, f) = >>=-eq-parsed (act help (place tok) p) (act_all help actions) h in
    let (j, slot, put) = take_positional-placed tok p r e in
    let same = (record_value-SameNames j tok p.args).slots 0 in
    let on = ap (act_all help actions) put ∙ f in
    recorded-gain j tok p.args q.args i a _ g (λ b at.
      subst (λ s. get_elem? q.args i ≡ some (gain (received s (p.pos_index + 1) i actions) b)) same
        (act_all-gain help actions (placed j tok p) q i b on at))
    ∙ ap (λ vals. some (gain vals a)) (received-placed _ p.pos_index i j tok actions slot)
act_all-gain help (stop ∷ actions) p q i a h g =
    act_all-gain help actions (record p { end_of_flags = true }) q i a h g
