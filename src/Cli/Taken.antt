-- ===== src/Cli/Taken.antt =====
-- Names that are taken when an argument is registered, in utils/CliParser.cpp.
use sasc.Prelude.{
  ℕ, suc, arith, ◌≡◌, refl, ap, ◌∙◌, Bool, true, false, inl, inr, ◌⊎◌, Option-cases, if◌then◌else◌,
  List, [], ◌∷◌, ◌++◌, length, or_other, ◌&&◌, Option, none, some,
}
use sasc.Cli.Text.{Text, same_text, same_text_refl}
use sasc.Cli.Arg.{Arg, Kind, flag, option, positional, same_kind, arg, short_name}
use sasc.Cli.Register.{
  CliParser, cli_error, parsed, registered_more_than_once, find_where, find_long, find_short,
  has_long, has_short, add, is_registered,
}
use Prim.Native.Char.{Char}

same_kind_refl : (k : Kind) → same_kind k k ≡ true
same_kind_refl flag = refl
same_kind_refl option = refl
same_kind_refl positional = refl

abbrev first_or : Bool → Option ℕ → Option ℕ
first_or b o = if b then some 0 else elim o [ none ↦ none | some i ↦ some (suc i) ]

first_or-or_other :
    (b c : Bool) (n : ℕ) (o : Option ℕ)
    → first_or b (or_other o (if c then some n else none))
      ≡ or_other (first_or b o) (if c then some (suc n) else none)
first_or-or_other true c n o = refl
first_or-or_other false c n (some i) = refl
first_or-or_other false true n none = refl
first_or-or_other false false n none = refl

-- An argument behind others is found where none of those is.
find_where-snoc :
    (test : Arg → Bool) (args : List Arg) (a : Arg)
    → find_where test (args ++ a ∷ [])
      ≡ or_other (find_where test args) (if test a then some (length args) else none)
unfolding find_where
find_where-snoc test [] a = refl
find_where-snoc test (b ∷ args) a =
    ap (first_or (test b)) (find_where-snoc test args a)
    ∙ first_or-or_other (test b) (test a) (length args) (find_where test args)

find_where-append :
    (test : Arg → Bool) (args : List Arg) (a : Arg) {i : ℕ}
    → find_where test args ≡ some i
    → find_where test (args ++ a ∷ []) ≡ some i
find_where-append test args a h =
    find_where-snoc test args a
    ∙ ap (λ o. or_other o (if test a then some (length args) else none)) h

find_where-last :
    (test : Arg → Bool) (args : List Arg) (a : Arg)
    → find_where test args ≡ none
    → test a ≡ true
    → find_where test (args ++ a ∷ []) ≡ some (length args)
find_where-last test args a h t =
    find_where-snoc test args a
    ∙ (ap (λ o. or_other o (if test a then some (length args) else none)) h
        ∙ ap (λ b. if b then some (length args) else none) t)

-- The loop of `add` finds an argument where `find_long` does.
is_registered-find_long :
    (name : Text) (kind : Kind) (args : List Arg)
    → is_registered name kind args
      ≡ elim (find_long name kind args) [ none ↦ false | some _ ↦ true ]
unfolding is_registered find_long find_where
is_registered-find_long name kind [] = refl
is_registered-find_long name kind (a ∷ args) =
    let ih = is_registered-find_long name kind args in ground arith

add-new :
    (kind : Kind) (name desc : Text) (configure : Arg → Arg) (cli : CliParser)
    → find_long name kind cli.args ≡ none
    → add kind name desc configure cli
      ≡ parsed (record cli { args = cli.args ++ configure (arg kind name desc) ∷ [] })
unfolding add
add-new kind name desc configure cli h =
    rw (is_registered-find_long name kind cli.args, h, add) refl

add-taken :
    (kind : Kind) (name desc : Text) (configure : Arg → Arg) (cli : CliParser) (i : ℕ)
    → find_long name kind cli.args ≡ some i
    → add kind name desc configure cli ≡ cli_error registered_more_than_once
unfolding add
add-taken kind name desc configure cli i h =
    rw (is_registered-find_long name kind cli.args, h, add) refl

has_long_self :
    (a : Arg) (name : Text) (kind : Kind)
    → a.kind ≡ kind
    → a.name ≡ name
    → has_long name kind a ≡ true
has_long_self a name kind k n =
    ap (λ j. same_kind j kind && same_text a.name name) k
    ∙ (ap (λ b. b && same_text a.name name) (same_kind_refl kind)
        ∙ (ap (λ t. same_text t name) n ∙ same_text_refl name))

-- Registering gives an error where an argument of that kind has that name, and else puts the argument at
-- the end, where its name finds it, and the names that were taken find what they found.
pub add-find_long :
    (kind : Kind) (name desc : Text) (configure : Arg → Arg) (cli : CliParser)
    → (configure (arg kind name desc)).kind ≡ kind
    → (configure (arg kind name desc)).name ≡ name
    → ((i : ℕ) × (find_long name kind cli.args ≡ some i)
        × (add kind name desc configure cli ≡ cli_error registered_more_than_once))
      ⊎ ((cli' : CliParser) × (add kind name desc configure cli ≡ parsed cli')
          × (find_long name kind cli'.args ≡ some (length cli.args))
          × ((other : Text) (k : Kind) (i : ℕ)
              → find_long other k cli.args ≡ some i
              → find_long other k cli'.args ≡ some i))
unfolding find_long
add-find_long kind name desc configure cli k n =
    elim (Option-cases (find_long name kind cli.args)) [
      | inl h ↦
          let new = configure (arg kind name desc) in
          inr (
            record cli { args = cli.args ++ new ∷ [] },
            add-new kind name desc configure cli h,
            find_where-last (has_long name kind) cli.args new h (has_long_self new name kind k n),
            λ other k i g. find_where-append (has_long other k) cli.args new g,
          )
      | inr (i, h) ↦ inl (i, h, add-taken kind name desc configure cli i h)
    ]

-- A short name that is taken is not refused: the argument is registered, and the short name goes on to
-- find the one that had it first.
pub add-short_taken :
    (kind : Kind) (name desc : Text) (c : Char) (cli : CliParser) (i : ℕ)
    → find_short c kind cli.args ≡ some i
    → find_long name kind cli.args ≡ none
    → (cli' : CliParser) × (add kind name desc (short_name c) cli ≡ parsed cli')
      × (find_short c kind cli'.args ≡ some i)
unfolding find_short
add-short_taken kind name desc c cli i h n =
    let new = short_name c (arg kind name desc) in
    (
      record cli { args = cli.args ++ new ∷ [] },
      add-new kind name desc (short_name c) cli n,
      find_where-append (has_short c kind) cli.args new h,
    )
