-- ===== src/Cli/Actions.antt =====
-- What a command line says: the actions of its tokens, and the ways to spell them that
-- utils/CliParser.hpp describes.
use sasc.Prelude.{ℕ, ◌≡◌, ◌==◌, Bool, true, false, List, [], ◌∷◌, ◌++◌, Option, none, some}
use sasc.Frontend.Token.{chars}
use sasc.Cli.Text.{Text, same_char}
use sasc.Cli.Arg.{Arg, flag, option}
use sasc.Cli.Register.{CliResult, parsed, find_long, find_short, ◌>>=◌}
use sasc.Cli.Parse.{Parsing, take_positional, set_option, pass_flag, is_operand, head?}
use Prim.Native.Char.{Char, code}

-- A flag is passed, an option is given a value, a positional is placed, the options are over. An
-- argument is named by its position.
pub data Action : Type 0 where
  pass : ℕ → Action
  give : ℕ → Text → Action
  place : Text → Action
  stop : Action

unfoldable pub act : Option ℕ → Action → Parsing → CliResult Parsing
unfolding pass_flag set_option take_positional
act help (pass i) p = pass_flag help i p
act help (give i val) p = set_option i val p
act help (place tok) p = take_positional tok p
act help stop p = parsed (record p { end_of_flags = true })

unfoldable pub act_all : Option ℕ → List Action → Parsing → CliResult Parsing
unfolding act
act_all help [] p = parsed p
act_all help (a ∷ actions) p = do p' ← act help a p; act_all help actions p'

-- A character that is not in a text.
abbrev pub Lacks : Char → Text → Type 0
Lacks c [] = Unit
Lacks c (d ∷ cs) = (same_char d c ≡ false) × Lacks c cs

-- A name that may follow `--`.
pub record IsName (name : Text) : Type 0 where
  pub first : Char
  pub others : Text
  pub is_cons : name ≡ first ∷ others
  pub lacks : Lacks "=" name

-- What a cluster of short options says, in front of the next token; the flag is whether that is taken.
pub data Cluster (args : List Arg) (next : Option Text) : Text → List Action → Bool → Type 0 where
  nothing : Cluster args next [] [] false
  short_flag :
      (c : Char) (i : ℕ) {cs : Text} {actions : List Action} {taken : Bool}
      → find_short c flag args ≡ some i
      → Cluster args next cs actions taken
      → Cluster args next (c ∷ cs) (pass i ∷ actions) taken
  short_attached :
      (c d : Char) (cs : Text) (i : ℕ)
      → find_short c flag args ≡ none
      → find_short c option args ≡ some i
      → Cluster args next (c ∷ (d ∷ cs)) (give i (d ∷ cs) ∷ []) false
  short_separate :
      (c : Char) (val : Text) (i : ℕ)
      → find_short c flag args ≡ none
      → find_short c option args ≡ some i
      → next ≡ some val
      → Cluster args next (c ∷ []) (give i val ∷ []) true

-- What an option, without its leading `-`, says in front of the next token.
pub data Opt (args : List Arg) (next : Option Text) : Text → List Action → Bool → Type 0 where
  long_flag :
      (name : Text) (i : ℕ)
      → IsName name
      → find_long name flag args ≡ some i
      → Opt args next ("-" ∷ name) (pass i ∷ []) false
  long_inline :
      (name val : Text) (i : ℕ)
      → IsName name
      → find_long name flag args ≡ none
      → find_long name option args ≡ some i
      → Opt args next ("-" ∷ (name ++ "=" ∷ val)) (give i val ∷ []) false
  long_separate :
      (name val : Text) (i : ℕ)
      → IsName name
      → find_long name flag args ≡ none
      → find_long name option args ≡ some i
      → next ≡ some val
      → Opt args next ("-" ∷ name) (give i val ∷ []) true
  short :
      (c : Char) {cs : Text} {actions : List Action} {taken : Bool}
      → (code c == 45) ≡ false
      → is_operand ("-" ∷ (c ∷ cs)) ≡ false
      → Cluster args next (c ∷ cs) actions taken
      → Opt args next (c ∷ cs) actions taken

-- What a command line says; the flag is whether the options are over.
pub data Says (args : List Arg) : Bool → List Text → List Action → Type 0 where
  ended : {e : Bool} → Says args e [] []
  sentinel :
      {tokens : List Text} {actions : List Action}
      → Says args true tokens actions
      → Says args false (chars "--" ∷ tokens) (stop ∷ actions)
  operand_behind :
      (tok : Text) {tokens : List Text} {actions : List Action}
      → Says args true tokens actions
      → Says args true (tok ∷ tokens) (place tok ∷ actions)
  operand :
      (tok : Text) {tokens : List Text} {actions : List Action}
      → is_operand tok ≡ true
      → Says args false tokens actions
      → Says args false (tok ∷ tokens) (place tok ∷ actions)
  option_alone :
      (body : Text) {tokens : List Text} {here actions : List Action}
      → Opt args (head? tokens) body here false
      → Says args false tokens actions
      → Says args false (("-" ∷ body) ∷ tokens) (here ++ actions)
  option_with :
      (body val : Text) {tokens : List Text} {here actions : List Action}
      → Opt args (some val) body here true
      → Says args false tokens actions
      → Says args false (("-" ∷ body) ∷ (val ∷ tokens)) (here ++ actions)
