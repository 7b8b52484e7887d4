-- ===== src/Compile/Artifacts.antt =====
-- `compile` of compile.cpp where an executable is the only artifact asked for.
use sasc.Prelude.{ℕ, ◌≡◌, refl, ap, ◌∙◌, Bool, false, Option, some, List, [], ◌∷◌, if◌then◌else◌}
use sasc.Error.{file_io_error}
use sasc.Frontend.Outcome.{Outcome, out_of_fuel, throws, returns, lift, ◌>>=◌}
use sasc.Frontend.Ast.{FunctionDefinition}
use sasc.Frontend.EmitIr.{emit_object}
use sasc.Frontend.Parser.{build_source}
use sasc.Riscv32.Function.{lower_ir, link}
use sasc.Ir.Defs.{Function}
use sasc.Elf.{Target, emit}
use sasc.Cli.Text.{Text}
use sasc.Compile.{is_linux, compile}
use sasc.Compile.Settings.{exe_kind, CompileSettings, same_emit_kind, find, wants, furthest}
use sasc.Compile.Stages.{
  executable, opened, wrote, Effects, fails, then_do, open_streams, opened_paths, write_executable,
  back_end, ir_stage, ast_written, ast_stage, read_input, compile_with,
}

abbrev pub exe_only : Target → Text → CompileSettings
exe_only target out = record {
  target = target;
  emits = (exe_kind, record { path = out; to_stdout = false }) ∷ [];
}

-- What is done with the bytes of an executable.
abbrev pub write_file : (Text → Bool) → Text → List ℕ → Effects
write_file opens out file =
    if opens out
    then record {
      events = opened out ∷ (wrote (some out) (executable file) ∷ []);
      ended = returns tt;
    }
    else fails file_io_error

then_do-cong {ℓ} :
    {A : Type ℓ} (m : Outcome A) (f g : A → Effects)
    → ((a : A) → f a ≡ g a)
    → then_do m f ≡ then_do m g
then_do-cong out_of_fuel f g h = refl
then_do-cong (throws e) f g h = refl
then_do-cong (returns a) f g h = h a

then_do_assoc {ℓ κ} :
    {A : Type ℓ} {B : Type κ} (m : Outcome A) (f : A → Outcome B) (g : B → Effects)
    → then_do m (λ a. then_do (f a) g) ≡ then_do (m >>= f) g
then_do_assoc out_of_fuel f g = refl
then_do_assoc (throws e) f g = refl
then_do_assoc (returns a) f g = refl

back_end-exe :
    (opens : Text → Bool) (target : Target) (out : Text) (ir : List Function)
    → back_end opens (exe_only target out) ir
      ≡ then_do
          (lift (lower_ir ir) >>= λ obj.
            lift (link (is_linux target) obj) >>= λ linked. returns (emit linked target))
          (write_file opens out)
unfolding back_end write_executable find
back_end-exe opens target out ir =
    then_do-cong (lift (lower_ir ir)) _ _ (λ obj.
      then_do_assoc (lift (link (is_linux target) obj)) (λ linked. returns (emit linked target))
        (write_file opens out))
    ∙ then_do_assoc (lift (lower_ir ir)) _ (write_file opens out)

ast_stage-exe :
    (opens : Text → Bool) (target : Target) (out : Text) (ast : List FunctionDefinition)
    → ast_stage opens (exe_only target out) ast
      ≡ then_do
          (lift (emit_object ast) >>= λ ir. lift (lower_ir ir) >>= λ obj.
            lift (link (is_linux target) obj) >>= λ linked. returns (emit linked target))
          (write_file opens out)
unfolding ast_stage ast_written ir_stage furthest wants find same_emit_kind
ast_stage-exe opens target out ast =
    then_do-cong (lift (emit_object ast)) _ _ (back_end-exe opens target out)
    ∙ then_do_assoc (lift (emit_object ast)) _ (write_file opens out)

-- Where an executable is the only artifact asked for, the stages of `compile` come to writing the file
-- that they make of the source, and nothing is opened or written where they throw.
pub compile_with-exe :
    (opens : Text → Bool) (reads : List Text → Text → Option Text) (filename source out : Text)
    (target : Target)
    → reads [] filename ≡ some source
    → compile_with opens reads filename (exe_only target out)
      ≡ then_do (compile source target) (write_file opens out)
unfolding compile_with open_streams opened_paths same_emit_kind compile
compile_with-exe opens reads filename source out target h =
    ap (read_input opens (exe_only target out)) h
    ∙ (then_do-cong (build_source source) _ _ (ast_stage-exe opens target out)
        ∙ then_do_assoc (build_source source) _ (write_file opens out))
