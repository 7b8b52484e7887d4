-- ===== src/Cli/Names.antt =====
-- The names of the arguments of utils/CliParser.cpp, which `parse` does not change.
use sasc.Prelude.{
  ℕ, ◌+◌, ◌≢◌, zero, suc, ◌≡◌, refl, sym, ap, subst, ◌∙◌, Bool, true, false, if◌then◌else◌, List,
  [], ◌∷◌, get_elem?, set, Option, none, some, inl, inr, Option-cases,
}
use sasc.Cli.Text.{Text}
use sasc.Cli.Arg.{Arg, Kind, add_value}
use sasc.Cli.Register.{
  CliError, unexpected_positional, CliResult, cli_error, help_requested, parsed, find_where,
  has_long, has_short, find_long, find_short, ◌>>=◌,
}
use sasc.Cli.Parse.{
  Parsing, record_value, is_repeat, take_positional, hit_flag, set_option, pass_flag, is_help,
  positionals,
}
use sasc.Cli.Parse.Parsing.{args}
use Prim.Native.Char.{Char}

module _ {ℓ κ} {A : Type ℓ} {B : Type κ} where
  pub >>=-eq-parsed :
      (m : CliResult A) (f : A → CliResult B) {b : B}
      → (m >>= f) ≡ parsed b
      → (a : A) × (m ≡ parsed a) × (f a ≡ parsed b)
  >>=-eq-parsed (cli_error e) f h = cc
  >>=-eq-parsed help_requested f h = cc
  >>=-eq-parsed (parsed a) f h = (a, refl, h)

  pub >>=-cong :
      (m : CliResult A) (f g : A → CliResult B)
      → ((a : A) → m ≡ parsed a → f a ≡ g a)
      → (m >>= f) ≡ (m >>= g)
  >>=-cong (cli_error e) f g h = refl
  >>=-cong help_requested f g h = refl
  >>=-cong (parsed a) f g h = h a refl

pub >>=_assoc {ℓ κ μ} :
    {A : Type ℓ} {B : Type κ} {C : Type μ} (m : CliResult A) (f : A → CliResult B)
    (g : B → CliResult C)
    → ((m >>= f) >>= g) ≡ (m >>= λ a. f a >>= g)
>>=_assoc (cli_error e) f g = refl
>>=_assoc help_requested f g = refl
>>=_assoc (parsed a) f g = refl

pub parsed-injective {ℓ} : {A : Type ℓ} {a b : A} → parsed a ≡ parsed b → a ≡ b
parsed-injective h = cc

pub some-injective {ℓ} : {A : Type ℓ} {a b : A} → some a ≡ some b → a ≡ b
some-injective h = cc

pub unless-eq-parsed {ℓ} :
    {A : Type ℓ} (b : Bool) (refused m : CliResult A) {a : A}
    → refused ≢ parsed a
    → (if b then refused else m) ≡ parsed a
    → (b ≡ false) × (m ≡ parsed a)
unless-eq-parsed true refused m n h = absurd (n h)
unless-eq-parsed false refused m n h = (refl, h)

pub find_where-set :
    (test : Arg → Bool) (args : List Arg) (i : ℕ) (a b : Arg)
    → get_elem? args i ≡ some a
    → test b ≡ test a
    → find_where test (set args i b) ≡ find_where test args
unfolding find_where
find_where-set test [] i a b h e = refl
find_where-set test (x ∷ xs) zero a b h e = rw (e ∙ ap test (sym (some-injective h))) refl
find_where-set test (x ∷ xs) (suc i) a b h e = rw (find_where-set test xs i a b h e) refl

positionals-set :
    (args : List Arg) (k i : ℕ) (a b : Arg)
    → get_elem? args i ≡ some a
    → b.kind ≡ a.kind
    → positionals k (set args i b) ≡ positionals k args
unfolding positionals
positionals-set [] k i a b h e = refl
positionals-set (x ∷ xs) k zero a b h e = rw (e ∙ ap (λ x. x.kind) (sym (some-injective h))) refl
positionals-set (x ∷ xs) k (suc i) a b h e = rw (positionals-set xs (suc k) i a b h e) refl

-- Names are found where they were, and the positionals are where they were.
pub record SameNames (xs ys : List Arg) : Type 0 where
  pub longs : (name : Text) (kind : Kind) → find_long name kind ys ≡ find_long name kind xs
  pub shorts : (c : Char) (kind : Kind) → find_short c kind ys ≡ find_short c kind xs
  pub slots : (k : ℕ) → positionals k ys ≡ positionals k xs

pub SameNames-refl : (xs : List Arg) → SameNames xs xs
SameNames-refl xs = record { longs = λ name kind. refl; shorts = λ c kind. refl; slots = λ k. refl }

pub SameNames-trans : {xs ys zs : List Arg} → SameNames xs ys → SameNames ys zs → SameNames xs zs
SameNames-trans n m = record {
  longs = λ name kind. m.longs name kind ∙ n.longs name kind;
  shorts = λ c kind. m.shorts c kind ∙ n.shorts c kind;
  slots = λ k. m.slots k ∙ n.slots k;
}

set-SameNames :
    (args : List Arg) (i : ℕ) (a : Arg) (val : Text)
    → get_elem? args i ≡ some a
    → SameNames args (set args i (record (add_value val a) { seen = true }))
unfolding find_long find_short add_value
set-SameNames args i a val h = record {
  longs = λ name kind. find_where-set (has_long name kind) args i a _ h refl;
  shorts = λ c kind. find_where-set (has_short c kind) args i a _ h refl;
  slots = λ k. positionals-set args k i a _ h refl;
}

pub record_value-SameNames :
    (i : ℕ) (val : Text) (args : List Arg) → SameNames args (record_value i val args)
unfolding record_value
record_value-SameNames i val args = elim (Option-cases (get_elem? args i)) [
  | inl h ↦ rw (h, record_value) (SameNames-refl args)
  | inr (a, h) ↦ rw (h, record_value) (set-SameNames args i a val h)
]

-- What passing an argument leaves as it is.
pub record Keeps (p q : Parsing) : Type 0 where
  pub names : SameNames p.args q.args
  pub flags : q.end_of_flags ≡ p.end_of_flags

pub Keeps-refl : (p : Parsing) → Keeps p p
Keeps-refl p = record { names = SameNames-refl p.args; flags = refl }

pub Keeps-trans : {p q r : Parsing} → Keeps p q → Keeps q r → Keeps p r
Keeps-trans k l = record { names = SameNames-trans k.names l.names; flags = l.flags ∙ k.flags }

-- What has recorded a value at position `i`.
abbrev pub recorded : ℕ → Text → Parsing → Parsing
recorded i val p = record p { args = record_value i val p.args }

recorded-Keeps : (i : ℕ) (val : Text) (p : Parsing) → Keeps p (recorded i val p)
recorded-Keeps i val p = record { names = record_value-SameNames i val p.args; flags = refl }

pub cli_error-not-parsed {ℓ} : {A : Type ℓ} {a : A} (e : CliError) → cli_error e ≢ parsed a
cli_error-not-parsed e h = cc

pub hit_flag-recorded : (i : ℕ) (p q : Parsing) → hit_flag i p ≡ parsed q → recorded i [] p ≡ q
unfolding hit_flag
hit_flag-recorded i p q h =
    parsed-injective (unless-eq-parsed (is_repeat i p.args) _ _ (cli_error-not-parsed _) h).1

pub set_option-recorded :
    (i : ℕ) (val : Text) (p q : Parsing) → set_option i val p ≡ parsed q → recorded i val p ≡ q
unfolding set_option
set_option-recorded i val p q h =
    parsed-injective (unless-eq-parsed (is_repeat i p.args) _ _ (cli_error-not-parsed _) h).1

pub pass_flag-recorded :
    (help : Option ℕ) (i : ℕ) (p q : Parsing)
    → pass_flag help i p ≡ parsed q
    → (is_help help i ≡ false) × (recorded i [] p ≡ q)
unfolding pass_flag
pass_flag-recorded help i p q h =
    let (r, e, f) = >>=-eq-parsed (hit_flag i p) _ h in
    let (b, g) = unless-eq-parsed (is_help help i) help_requested (parsed r) (λ n. cc) f in
    (b, hit_flag-recorded i p r e ∙ parsed-injective g)

pub pass_flag-Keeps :
    (help : Option ℕ) (i : ℕ) (p q : Parsing) → pass_flag help i p ≡ parsed q → Keeps p q
pass_flag-Keeps help i p q h =
    subst (Keeps p) (pass_flag-recorded help i p q h).1 (recorded-Keeps i [] p)

pub set_option-Keeps :
    (i : ℕ) (val : Text) (p q : Parsing) → set_option i val p ≡ parsed q → Keeps p q
set_option-Keeps i val p q h =
    subst (Keeps p) (set_option-recorded i val p q h) (recorded-Keeps i val p)

abbrev pub placed : ℕ → Text → Parsing → Parsing
placed i tok p = record (recorded i tok p) { pos_index = p.pos_index + 1 }

slot-placed :
    (slot : Option ℕ) (tok : Text) (p q : Parsing)
    → elim slot [ none ↦ cli_error unexpected_positional | some i ↦ parsed (placed i tok p) ]
      ≡ parsed q
    → (i : ℕ) × (slot ≡ some i) × (placed i tok p ≡ q)
slot-placed none tok p q h = cc
slot-placed (some i) tok p q h = (i, refl, parsed-injective h)

pub take_positional-placed :
    (tok : Text) (p q : Parsing)
    → take_positional tok p ≡ parsed q
    → (i : ℕ) × (get_elem? (positionals 0 p.args) p.pos_index ≡ some i) × (placed i tok p ≡ q)
unfolding take_positional
take_positional-placed tok p q h =
    slot-placed (get_elem? (positionals 0 p.args) p.pos_index) tok p q h

pub take_positional-Keeps :
    (tok : Text) (p q : Parsing) → take_positional tok p ≡ parsed q → Keeps p q
take_positional-Keeps tok p q h =
    let (i, e, f) = take_positional-placed tok p q h in
    let k = recorded-Keeps i tok p in subst (Keeps p) f (record { names = k.names; flags = refl })
