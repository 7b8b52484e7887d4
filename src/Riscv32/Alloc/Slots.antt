-- ===== src/Riscv32/Alloc/Slots.antt =====
-- Searches in the array of slots, and single operations of the allocator.
use sasc.Prelude.{
  ℕ, zero, suc, ◌+◌, ◌<◌, ◌≡◌, refl, ap, ◌∙◌, Bool, true, false, Option-cases, none, some, List, [],
  ◌∷◌, ◌++◌, length, get_elem?, set, get_elem?-lt, All, arith, inl, inr,
}
use sasc.Error.{Result, ok, err}
use sasc.Ir.IrType.{IrType}
use sasc.Ir.Defs.{find_vreg, vreg_at}
use sasc.Riscv32.Alloc.{
  RegSlot, Generator, M, ◌>>=◌, slot_at, put_slot, type_of_vreg, find_slot, find_offset,
  spill_offset, home_of, write_spill, spill_slot, vacate, offset_or_zero,
}

pub find_slot-none :
    (p : RegSlot → Bool) (ss : List RegSlot) (i : ℕ)
    → All (λ s. p s ≡ false) ss
    → find_slot p ss i ≡ none
unfolding find_slot
find_slot-none p [] i h = refl
find_slot-none p (s ∷ ss) i (e, h) = rw (e, find_slot) (find_slot-none p ss (suc i) h)

-- The only slot that passes is the one put in.
pub find_slot-set :
    (p : RegSlot → Bool) (ss : List RegSlot) (i k : ℕ) (s : RegSlot)
    → All (λ s. p s ≡ false) ss
    → p s ≡ true
    → k < length ss
    → find_slot p (set ss k s) i ≡ some (i + k)
unfolding find_slot
find_slot-set p [] i k s h e lt = absurd (omega arith)
find_slot-set p (r ∷ ss) i zero s h e lt = rw (e, find_slot) (ap some (omega arith))
find_slot-set p (r ∷ ss) i (suc k) s (f, h) e lt =
    rw (f, find_slot) (find_slot-set p ss (suc i) k s h e (omega arith) ∙ ap some (omega arith))

pub All-set {κ} :
    (P : RegSlot → Type κ) (ss : List RegSlot) (k : ℕ) (s : RegSlot)
    → All P ss
    → P s
    → All P (set ss k s)
All-set P [] k s h e = h
All-set P (r ∷ ss) zero s (f, h) e = (e, h)
All-set P (r ∷ ss) (suc k) s (f, h) e = (f, All-set P ss k s h e)

-- A home is found or made; nothing else changes.
pub home_of-found :
    (v : ℕ) (g : Generator)
    → (o : ℕ) × (m : List (ℕ × ℕ)) × (home_of v g
        ≡ ok (o, record g { spilled_vreg_fp_offsets = m }))
unfolding home_of
home_of-found v g = elim (Option-cases (find_offset g.spilled_vreg_fp_offsets v)) [
  | inl q ↦
      let o = spill_offset (length g.spilled_vreg_fp_offsets) in
      (o, g.spilled_vreg_fp_offsets ++ (v, o) ∷ [], rw (q, home_of) refl)
  | inr (o, q) ↦ (o, g.spilled_vreg_fp_offsets, rw (q, home_of) refl)
]

pub offset_or_zero-found :
    (v : ℕ) (g : Generator)
    → (o : ℕ) × (m : List (ℕ × ℕ)) × (offset_or_zero v g
        ≡ ok (o, record g { spilled_vreg_fp_offsets = m }))
unfolding offset_or_zero
offset_or_zero-found v g = elim (Option-cases (find_offset g.spilled_vreg_fp_offsets v)) [
  | inl q ↦ (0, g.spilled_vreg_fp_offsets ++ (v, 0) ∷ [], rw (q, offset_or_zero) refl)
  | inr (o, q) ↦ (o, g.spilled_vreg_fp_offsets, rw (q, offset_or_zero) refl)
]

-- One step of a do block.
pub bind-ok :
    {A B : Type 0} (m : M A) (f : A → M B) (g g1 : Generator) (a : A)
    → m g ≡ ok (a, g1)
    → (m >>= f) g ≡ f a g1
bind-ok m f g g1 a e = ap (λ r. elim r [ ok (b, h) ↦ f b h | err x ↦ err x ]) e

pub slot_at-found :
    (g : Generator) (i : ℕ) (s : RegSlot)
    → get_elem? g.registers i ≡ some s
    → slot_at i g ≡ ok (s, g)
unfolding slot_at
slot_at-found g i s e = rw (e, slot_at) refl

pub type_of_vreg-found :
    (g : Generator) (v : ℕ) (t : IrType)
    → find_vreg g.vregs v ≡ some t
    → type_of_vreg v g ≡ ok (t, g)
unfolding type_of_vreg vreg_at
type_of_vreg-found g v t e = rw (e, type_of_vreg, vreg_at) refl

-- The operation `m` returns the slot `p`, which now is `s`, and changes no other slot and no type.
pub record Gives (m : Generator → Result (ℕ × Generator)) (g : Generator) (p : ℕ) (s : RegSlot)
    : Type 0 where
  pub after : Generator
  pub returns : m g ≡ ok (p, after)
  pub slots : after.registers ≡ set g.registers p s
  pub types : after.vregs ≡ g.vregs

module _ (g : Generator) (p : ℕ) (s : RegSlot) (here : get_elem? g.registers p ≡ some s) where
  in_range : p < length g.registers
  in_range = get_elem?-lt g.registers p here

  -- A slot is given up by clearing its flag.
  pub vacate-Gives : Gives (vacate p) g p (record s { occupied = false })
  unfolding vacate put_slot
  vacate-Gives = record {
    after = record g { registers = set g.registers p (record s { occupied = false }) };
    returns = bind-ok (slot_at p) _ g g s (slot_at-found g p s here);
    slots = refl;
    types = refl;
  }

  -- A slot is spilled to the home of its resident, and is no longer dirty.
  pub spill_slot-clean :
      (t : IrType)
      → find_vreg g.vregs s.resident ≡ some t
      → (g' : Generator) × (spill_slot p g ≡ ok (tt, g'))
        × (g'.registers ≡ set g.registers p (record s { dirty = false }))
        × (g'.vregs ≡ g.vregs)
  unfolding spill_slot put_slot
  spill_slot-clean t e =
      let (o, m, q) = home_of-found s.resident g in
      (
        record g {
          registers = set g.registers p (record s { dirty = false });
          spilled_vreg_fp_offsets = m;
          body = (write_spill t s.physical o g.body).0;
        },
        bind-ok (slot_at p) _ g g s (slot_at-found g p s here)
            ∙ bind-ok (type_of_vreg s.resident) _ g g t (type_of_vreg-found g s.resident t e)
            ∙ bind-ok (home_of s.resident) _ g (record g { spilled_vreg_fp_offsets = m }) o q,
        refl,
        refl,
      )
