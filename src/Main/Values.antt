-- ===== src/Main/Values.antt =====
-- What the `--emit` values of main.cpp come to in the settings.
use sasc.Prelude.{
  ◌≡◌, ◌≢◌, refl, sym, ap, ◌∙◌, Bool, true, false, Bool-cases, inl, inr, if◌then◌else◌, Option,
  none, some, or_other, List, [], ◌∷◌, ◌++◌, All,
}
use sasc.Error.{unsupported, Result, ok, err, >>=-eq-ok, ok-injective}
use sasc.Frontend.Token.{chars, text}
use sasc.Elf.{supported_targets}
use sasc.Cli.Text.{Text, same_text, same_text-eq}
use sasc.Cli.Register.{CliParser}
use sasc.Compile.Settings.{
  EmitKind, ast_kind, ir_kind, asm_kind, exe_kind, EmitTarget, Emits, CompileSettings,
  same_emit_kind, insert, find, wants,
}
use sasc.Compile.Order.{IsSorted, insert-IsSorted, find-insert}
use sasc.Main.Emit.{
  EmitKindInfo, emit_kinds, stdout_specifier, emit_target, parse_emit, insert_emits,
}
use sasc.Main.Arguments.{file_at, out_at, target_at, emit_at}
use sasc.Main.Ciderc.{
  value_at, values_at, set_exe_path, settings_of, unless_no_emits, unless_asm, or_unsupported,
}

not-stdout : (path : Text) → path ≢ stdout_specifier → same_text path stdout_specifier ≡ false
not-stdout path h = elim (Bool-cases (same_text path stdout_specifier)) [
  | inl e ↦ absurd (h (same_text-eq path stdout_specifier e))
  | inr e ↦ e
]

target-path :
    (replace_extension : Text → Text → Text) (info : EmitKindInfo) (input path : Text)
    → path ≢ stdout_specifier
    → emit_target replace_extension info input (some path)
      ≡ record { path = path; to_stdout = false }
unfolding emit_target
target-path replace_extension info input path h = rw (not-stdout path h, emit_target) refl

-- The target of the first value for a kind.
unfoldable pub first_given : (Text → Text → Text) → Text → EmitKind → List Text → Option EmitTarget
unfolding parse_emit same_emit_kind
first_given replace_extension input k [] = none
first_given replace_extension input k (value ∷ values) =
    let others = first_given replace_extension input k values in
    elim (parse_emit replace_extension value input) [
      | err e ↦ others
      | ok (l, t) ↦ if same_emit_kind l k then some t else others
    ]

abbrev ast_info : EmitKindInfo
ast_info = record { name = chars "ast"; kind = ast_kind; extension = []; description = [] }

-- Every kind may be given alone, with a path that is not empty and not `stdout`, or for the standard
-- output; an empty path is refused, and what is given alone goes to the input file's name with the
-- kind's extension.
pub parse_emit-named :
    (replace_extension : Text → Text → Text) (input path : Text)
    → path ≢ []
    → path ≢ stdout_specifier
    → All
        (λ info.
          (parse_emit replace_extension (info.name ++ "=" ∷ path) input
            ≡ ok (info.kind, record { path = path; to_stdout = false }))
          × (parse_emit replace_extension (info.name ++ "=" ∷ stdout_specifier) input
              ≡ ok (info.kind, record { path = []; to_stdout = true }))
          × (parse_emit replace_extension info.name input
              ≡ ok (
                info.kind,
                record { path = replace_extension input info.extension; to_stdout = false },
              ))
          × (parse_emit replace_extension (info.name ++ "=" ∷ []) input ≡ err unsupported))
        emit_kinds
unfolding parse_emit emit_target
parse_emit-named replace_extension input [] n s = absurd (n refl)
parse_emit-named replace_extension input (c ∷ cs) n s =
    let e = λ (k : EmitKind).
      ap {B = Result (EmitKind × EmitTarget)} (λ t. ok (k, t))
        (target-path replace_extension ast_info input (c ∷ cs) s) in
    (
      (e ast_kind, refl, refl, refl),
      (
        (e ir_kind, refl, refl, refl),
        ((e asm_kind, refl, refl, refl), ((e exe_kind, refl, refl, refl), tt)),
      ),
    )

or_other_assoc {ℓ} :
    {A : Type ℓ} (a b c : Option A) → or_other (or_other a b) c ≡ or_other a (or_other b c)
or_other_assoc none b c = refl
or_other_assoc (some a) b c = refl

given-cons :
    (replace_extension : Text → Text → Text) (input value : Text) (values : List Text)
    (k l : EmitKind) (t : EmitTarget)
    → parse_emit replace_extension value input ≡ ok (l, t)
    → or_other
        (if same_emit_kind l k then some t else none)
        (first_given replace_extension input k values)
      ≡ first_given replace_extension input k (value ∷ values)
unfolding first_given
given-cons replace_extension input value values k l t h =
    rw (h, first_given) (either (same_emit_kind l k) (some t) _)
  where
    either :
        (b : Bool) (t o : Option EmitTarget)
        → or_other (if b then t else none) o ≡ (if b then or_other t o else o)
    either true t o = refl
    either false t o = refl

insert_emits-found :
    (replace_extension : Text → Text → Text) (input : Text) (values : List Text) (before : Emits)
    {emits : Emits} (k : EmitKind)
    → IsSorted before
    → insert_emits replace_extension values input before ≡ ok emits
    → find k emits ≡ or_other (find k before) (first_given replace_extension input k values)
unfolding insert_emits first_given
insert_emits-found replace_extension input [] before k s h =
    ap (find k) (sym (ok-injective h)) ∙ or_other-nothing (find k before)
  where
    or_other-nothing : (o : Option EmitTarget) → o ≡ or_other o none
    or_other-nothing none = refl
    or_other-nothing (some t) = refl
insert_emits-found replace_extension input (value ∷ values) before k s h =
    let ((l, t), e, f) = >>=-eq-ok (parse_emit replace_extension value input) _ h in
    insert_emits-found replace_extension input values (insert l t before) k
      (insert-IsSorted l t before s) f
    ∙ (ap (λ o. or_other o (first_given replace_extension input k values))
          (find-insert k l t before s)
        ∙ (or_other_assoc (find k before) _ _
            ∙ ap (or_other (find k before))
                (given-cons replace_extension input value values k l t e)))

-- An executable that goes to a file goes to the one that `--out` names.
abbrev pub retarget : Text → EmitKind → EmitTarget → EmitTarget
retarget out exe_kind t = if t.to_stdout then t else record t { path = out }
retarget out k t = t

abbrev pub over_target : (EmitTarget → EmitTarget) → Option EmitTarget → Option EmitTarget
over_target f none = none
over_target f (some t) = some (f t)

same-stage : (k l : EmitKind) → same_emit_kind k l ≡ true → k ≡ l
unfolding same_emit_kind
same-stage ast_kind ast_kind h = refl
same-stage ir_kind ir_kind h = refl
same-stage asm_kind asm_kind h = refl
same-stage exe_kind exe_kind h = refl
same-stage ast_kind ir_kind h = cc
same-stage ast_kind asm_kind h = cc
same-stage ast_kind exe_kind h = cc
same-stage ir_kind ast_kind h = cc
same-stage ir_kind asm_kind h = cc
same-stage ir_kind exe_kind h = cc
same-stage asm_kind ast_kind h = cc
same-stage asm_kind ir_kind h = cc
same-stage asm_kind exe_kind h = cc
same-stage exe_kind ast_kind h = cc
same-stage exe_kind ir_kind h = cc
same-stage exe_kind asm_kind h = cc

over-if :
    (f : EmitTarget → EmitTarget) (b : Bool) (t : EmitTarget) (o : Option EmitTarget)
    → (if b then some (f t) else over_target f o) ≡ over_target f (if b then some t else o)
over-if f true t o = refl
over-if f false t o = refl

over-same : (o : Option EmitTarget) → o ≡ over_target (λ t. t) o
over-same none = refl
over-same (some t) = refl

find-set_exe_path :
    (out : Text) (k : EmitKind) (emits : Emits)
    → find k (set_exe_path out emits) ≡ over_target (retarget out k) (find k emits)
unfolding find set_exe_path same_emit_kind
find-set_exe_path out k [] = refl
find-set_exe_path out ast_kind ((ast_kind, t) ∷ emits) = refl
find-set_exe_path out ast_kind ((ir_kind, t) ∷ emits) = find-set_exe_path out ast_kind emits
find-set_exe_path out ast_kind ((asm_kind, t) ∷ emits) = find-set_exe_path out ast_kind emits
find-set_exe_path out ast_kind ((exe_kind, t) ∷ emits) = over-same (find ast_kind emits)
find-set_exe_path out ir_kind ((ast_kind, t) ∷ emits) = find-set_exe_path out ir_kind emits
find-set_exe_path out ir_kind ((ir_kind, t) ∷ emits) = refl
find-set_exe_path out ir_kind ((asm_kind, t) ∷ emits) = find-set_exe_path out ir_kind emits
find-set_exe_path out ir_kind ((exe_kind, t) ∷ emits) = over-same (find ir_kind emits)
find-set_exe_path out asm_kind ((ast_kind, t) ∷ emits) = find-set_exe_path out asm_kind emits
find-set_exe_path out asm_kind ((ir_kind, t) ∷ emits) = find-set_exe_path out asm_kind emits
find-set_exe_path out asm_kind ((asm_kind, t) ∷ emits) = refl
find-set_exe_path out asm_kind ((exe_kind, t) ∷ emits) = over-same (find asm_kind emits)
find-set_exe_path out exe_kind ((ast_kind, t) ∷ emits) = find-set_exe_path out exe_kind emits
find-set_exe_path out exe_kind ((ir_kind, t) ∷ emits) = find-set_exe_path out exe_kind emits
find-set_exe_path out exe_kind ((asm_kind, t) ∷ emits) = find-set_exe_path out exe_kind emits
find-set_exe_path out exe_kind ((exe_kind, t) ∷ emits) = refl

unless_no_emits-eq : (emits : Emits) {xs : Emits} → unless_no_emits emits ≡ ok xs → emits ≡ xs
unless_no_emits-eq [] h = cc
unless_no_emits-eq (e ∷ emits) h = ok-injective h

unless_asm-eq :
    (settings : CompileSettings) (b : Bool) {s : CompileSettings}
    → unless_asm settings b ≡ ok s
    → (b ≡ false) × (settings ≡ s)
unless_asm-eq settings true h = cc
unless_asm-eq settings false h = (refl, ok-injective h)

-- The settings hold for each kind the target of the first value that is given for it, but that an
-- executable that goes to a file goes to the file that `--out` names, whatever path is behind `exe=`.
-- The text of the target's assembly is not among them.
pub settings_of-find :
    (replace_extension : Text → Text → Text) (cli : CliParser) (settings : CompileSettings)
    (k : EmitKind)
    → settings_of replace_extension cli ≡ ok settings
    → (find k settings.emits
        ≡ over_target
            (retarget (value_at out_at cli) k)
            (first_given replace_extension (value_at file_at cli) k (values_at emit_at cli)))
      × (wants asm_kind settings ≡ false)
unfolding settings_of
settings_of-find replace_extension cli settings k h =
    let (target, e1, f1) =
      >>=-eq-ok (or_unsupported (supported_targets (text (value_at target_at cli)))) _ h in
    let (inserted, e2, f2) =
      >>=-eq-ok (insert_emits replace_extension (values_at emit_at cli) (value_at file_at cli) []) _
        f1 in
    let (emits, e3, f3) = >>=-eq-ok (unless_no_emits inserted) _ f2 in
    let (no_asm, same) = unless_asm-eq _ _ f3 in
    (
      ap (λ s. find k s.emits) (sym same)
          ∙ (find-set_exe_path (value_at out_at cli) k emits
              ∙ ap (over_target (retarget (value_at out_at cli) k)) (
                  ap (find k) (sym (unless_no_emits-eq inserted e3))
                  ∙ insert_emits-found replace_extension (value_at file_at cli)
                      (values_at emit_at cli) [] k tt e2)),
      ap (wants asm_kind) (sym same) ∙ no_asm,
    )
