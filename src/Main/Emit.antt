-- ===== src/Main/Emit.antt =====
-- The `--emit` values of main.cpp.
use sasc.Prelude.{Bool, true, false, Option, none, some, List, [], ◌∷◌, ◌++◌, if◌then◌else◌}
use sasc.Error.{unsupported, internal, Result, ok, err, ◌>>=◌}
use sasc.Frontend.Token.{chars}
use sasc.Cli.Text.{Text, same_text, is_empty, cut_at}
use sasc.Compile.Settings.{
  EmitKind, ast_kind, ir_kind, asm_kind, exe_kind, same_emit_kind, EmitTarget, Emits, insert,
}

pub record EmitKindInfo : Type 0 where
  pub name : Text
  pub kind : EmitKind
  pub extension : Text
  pub description : Text

-- `EMIT_KINDS`.
abbrev pub emit_kinds : List EmitKindInfo
emit_kinds =
    record {
      name = chars "ast";
      kind = ast_kind;
      extension = chars ".ast";
      description = chars "parsed abstract syntax tree";
    }
    ∷ (record {
      name = chars "ir";
      kind = ir_kind;
      extension = chars ".ir";
      description = chars "textual intermediate representation";
    }
        ∷ (record {
          name = chars "asm";
          kind = asm_kind;
          extension = chars ".s";
          description = chars "textual target assembly";
        }
            ∷ (record {
              name = chars "exe";
              kind = exe_kind;
              extension = [];
              description = chars "linked executable";
            }
                ∷ [])))

abbrev pub stdout_specifier : Text
stdout_specifier = chars "stdout"

-- The loop; `out` is what there is so far.
unfoldable pub emit_kind_list : Text → List EmitKindInfo → Text
emit_kind_list out [] = out
emit_kind_list out (info ∷ infos) =
    emit_kind_list (out ++ ((if is_empty out then [] else chars ", ") ++ info.name)) infos

unfoldable pub emit_kind_name : EmitKind → List EmitKindInfo → Result Text
unfolding same_emit_kind
emit_kind_name kind [] = err internal
emit_kind_name kind (info ∷ infos) =
    let others = emit_kind_name kind infos in
    if same_emit_kind info.kind kind then ok info.name else others

-- The loop over `EMIT_KINDS`, which does not stop at the first hit.
unfoldable pub find_info : Text → Option EmitKindInfo → List EmitKindInfo → Option EmitKindInfo
unfolding same_text
find_info kind_name info [] = info
find_info kind_name info (candidate ∷ candidates) =
    find_info kind_name (if same_text candidate.name kind_name then some candidate else info)
      candidates

-- Where the artifact goes; `path` is what stands behind the `=`.
unfoldable pub emit_target : (Text → Text → Text) → EmitKindInfo → Text → Option Text → EmitTarget
unfolding same_text
emit_target replace_extension info input none = record {
  path = replace_extension input info.extension;
  to_stdout = false;
}
emit_target replace_extension info input (some path) =
    if same_text path stdout_specifier
    then record { path = []; to_stdout = true }
    else record { path = path; to_stdout = false }

abbrev pub is_empty_path : Option Text → Bool
is_empty_path none = false
is_empty_path (some path) = is_empty path

unfoldable pub emit_of :
    (Text → Text → Text) → Text → Option Text → Text → Result (EmitKind × EmitTarget)
unfolding find_info emit_target
emit_of replace_extension kind_name path input = elim (find_info kind_name none emit_kinds) [
  | none ↦ err unsupported
  | some info ↦
      if is_empty_path path
      then err unsupported
      else ok (info.kind, emit_target replace_extension info input path)
]

unfoldable pub parse_emit : (Text → Text → Text) → Text → Text → Result (EmitKind × EmitTarget)
unfolding cut_at emit_of
parse_emit replace_extension value input =
    let (kind_name, path) = cut_at "=" value in emit_of replace_extension kind_name path input

-- The loop over the values.
unfoldable pub insert_emits : (Text → Text → Text) → List Text → Text → Emits → Result Emits
unfolding parse_emit insert
insert_emits replace_extension [] input emits = ok emits
insert_emits replace_extension (value ∷ values) input emits = do
  (kind, target) ← parse_emit replace_extension value input
  insert_emits replace_extension values input (insert kind target emits)
