-- ===== src/Ir/Printer/Tests.antt =====
-- The text of a small object, and the traversal of a loop of two blocks.
use sasc.Prelude.{
  ℕ, zero, suc, ◌<◌, ◌≡◌, refl, arith, ◌↔◌, [], ◌∷◌, ◌++◌, length, get_elem?, none, some,
}
use sasc.Frontend.Outcome.{returns, Surely}
use sasc.Frontend.Token.{chars}
use sasc.Ir.IrType
use sasc.Ir.Defs.{Op, no_vreg, return_kind, jump_kind, branch_kind, BasicBlock, Function}
use sasc.Ir.Printer.{Successor}
use sasc.Ir.Printer.Object.{is_seen, reachable_blocks, print}
use sasc.Ir.Printer.Seen.{In}
use sasc.Ir.Printer.Reachable.{next_places, Reaches, IsDistinct, reachable_blocks-Reaches}

-- Block 0 branches to 1 and 2, block 1 jumps back to 0, block 2 returns, and nothing leads to 3.
abbrev looping : Function
looping = record {
  name = "f";
  entry = 0;
  vregs = (2, IrType.bool) ∷ ((1, IrType.i32) ∷ []);
  bb_count = 4;
  blocks =
      record {
        id = 0;
        instructions =
            record { opcode = Op.load_imm; dest = 1; op1 = no_vreg; op2 = no_vreg; immediate = 7 }
            ∷ [];
        terminator = record { kind = some branch_kind; ret_reg = none };
      }
      ∷ (record {
        id = 1;
        instructions = [];
        terminator = record { kind = some jump_kind; ret_reg = none };
      }
          ∷ (record {
            id = 2;
            instructions = [];
            terminator = record { kind = some return_kind; ret_reg = some 1 };
          }
              ∷ (record {
                id = 3;
                instructions = [];
                terminator = record { kind = none; ret_reg = none };
              }
                  ∷ [])));
}

abbrev nowhere : Successor
nowhere = record { bb = 0; args = [] }

abbrev leads : ℕ → Successor × Successor
leads zero = (record { bb = 1; args = 1 ∷ (2 ∷ []) }, record { bb = 2; args = [] })
leads (suc n) = (nowhere, nowhere)

looping_printed :
    print (looping ∷ []) (λ _. leads)
    ≡ returns (
        chars "fn f {\n  %1: i32\n  %2: bool\nbb0:\n  %1 = loadimm 7\n"
        ++ (chars "  branch bb1(%1, %2), bb2\nbb1:\n  jump bb0\nbb2:\n  ret %1\n}\n"))
unfolding print
looping_printed = refl

looping_numbered : (p : ℕ) (b : BasicBlock) → get_elem? looping.blocks p ≡ some b → b.id ≡ p
looping_numbered zero b h = cc
looping_numbered (suc zero) b h = cc
looping_numbered (suc (suc zero)) b h = cc
looping_numbered (suc (suc (suc zero))) b h = cc
looping_numbered (suc (suc (suc (suc p)))) b h = cc

looping_closed : (p q : ℕ) → In q (next_places looping.blocks leads p) → q < length looping.blocks
unfolding next_places is_seen
looping_closed zero q h = ground arith
looping_closed (suc zero) q h = ground arith
looping_closed (suc (suc zero)) q h = ground arith
looping_closed (suc (suc (suc zero))) q h = ground arith
looping_closed (suc (suc (suc (suc p)))) q h = ground arith

reachable_blocks-Reaches_example :
    Surely
      (λ places.
        IsDistinct places × ((p : ℕ) → (In p places ↔ Reaches looping.blocks leads (0 ∷ []) p)))
      (reachable_blocks looping leads)
reachable_blocks-Reaches_example =
    reachable_blocks-Reaches looping leads looping_numbered looping_closed (omega arith)
