-- ===== src/Compile/Settings.antt =====
-- `EmitKind`, `EmitTarget` and `CompileSettings` of compile.hpp and compile.cpp. A map is the list of
-- its entries in the order of their keys.
use sasc.Prelude.{ℕ, Bool, true, false, Option, none, some, List, [], ◌∷◌, ltb, ◌==◌, if◌then◌else◌}
use sasc.Error.{internal, Result, ok, err}
use sasc.Cli.Text.{Text}
use sasc.Elf.{Target}

pub data EmitKind : Type 0 where
  ast_kind ir_kind asm_kind exe_kind : EmitKind

-- The enumeration's values, in pipeline order.
unfoldable pub stage : EmitKind → ℕ
stage ast_kind = 0
stage ir_kind = 1
stage asm_kind = 2
stage exe_kind = 3

unfoldable pub same_emit_kind : EmitKind → EmitKind → Bool
unfolding stage
same_emit_kind k l = stage k == stage l

pub record EmitTarget : Type 0 where
  pub path : Text
  pub to_stdout : Bool

abbrev pub Emits : Type 0
Emits = List (EmitKind × EmitTarget)

pub record CompileSettings : Type 0 where
  pub target : Target
  pub emits : Emits

-- `emits.insert`: an entry that is there stays.
unfoldable pub insert : EmitKind → EmitTarget → Emits → Emits
unfolding stage
insert k t [] = (k, t) ∷ []
insert k t ((l, u) ∷ emits) =
    let behind = insert k t emits in
    if ltb (stage k) (stage l)
    then (k, t) ∷ ((l, u) ∷ emits)
    else if stage k == stage l
    then (l, u) ∷ emits
    else (l, u) ∷ behind

-- `emits.find`.
unfoldable pub find : EmitKind → Emits → Option EmitTarget
unfolding same_emit_kind
find k [] = none
find k ((l, u) ∷ emits) = let behind = find k emits in if same_emit_kind l k then some u else behind

abbrev pub is_some {ℓ} : {A : Type ℓ} → Option A → Bool
is_some none = false
is_some (some a) = true

unfoldable pub wants : EmitKind → CompileSettings → Bool
unfolding find
wants k settings = is_some (find k settings.emits)

-- The key of `emits.rbegin()`.
unfoldable pub last_kind : Emits → Option EmitKind
last_kind [] = none
last_kind ((k, t) ∷ []) = some k
last_kind ((k, t) ∷ (e ∷ emits)) = last_kind (e ∷ emits)

unfoldable pub furthest : CompileSettings → Result EmitKind
unfolding last_kind
furthest settings = elim (last_kind settings.emits) [ none ↦ err internal | some k ↦ ok k ]
