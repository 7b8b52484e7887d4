-- ===== src/Riscv32/Alloc/Eviction.antt =====
-- Loading operands where every slot holds a value that is not in memory yet.
use sasc.Prelude.{
  ℕ, ◌+◌, ◌%◌, ◌<◌, ◌≡◌, ◌≢◌, refl, ap, ◌∙◌, true, false, not, ◌&&◌, none, some, List, [], ◌∷◌,
  length, get_elem?, set, set-set, length-set, get_elem?-set_self, get_elem?-lt, All, arith, ◌==◌,
}
use sasc.Error.{ok}
use sasc.Ir.IrType.{IrType}
use sasc.Ir.Defs.{find_vreg}
use sasc.Riscv32.Alloc.{
  RegSlot, Generator, slot_at, put_slot, type_of_vreg, find_slot, write_reload, spill_slot,
  spill_victim, get_empty_slot, offset_or_zero, reload, load_src_vreg,
}
use sasc.Riscv32.Alloc.Slots.{
  find_slot-none, find_slot-set, All-set, offset_or_zero-found, bind-ok, slot_at-found,
  type_of_vreg-found, Gives, vacate-Gives, spill_slot-clean,
}

==-ne : (a b : ℕ) → a ≢ b → (a == b) ≡ false
==-ne a b h = ground arith

-- Every slot holds a value that is not in memory.
abbrev IsFull : List RegSlot → Type 0
IsFull ss = All (λ s. (not s.occupied ≡ false) × (not s.dirty ≡ false)) ss

abbrev Missing : ℕ → List RegSlot → Type 0
Missing v ss = All (λ s. (s.occupied && s.resident == v) ≡ false) ss

All-map {κ κ'} :
    (P : RegSlot → Type κ) (Q : RegSlot → Type κ') (ss : List RegSlot)
    → ((s : RegSlot) → P s → Q s)
    → All P ss
    → All Q ss
All-map P Q [] f h = tt
All-map P Q (s ∷ ss) f (p, h) = (f s p, All-map P Q ss f h)

module _ (g : Generator) (s : RegSlot) (here : get_elem? g.registers g.next_to_spill ≡ some s)
    (t : IrType) (typed : find_vreg g.vregs s.resident ≡ some t) (full : IsFull g.registers) where
  -- The victim is the slot whose turn it is.
  get_empty_slot-full :
      Gives get_empty_slot g g.next_to_spill (record s { dirty = false; occupied = false })
  unfolding get_empty_slot spill_victim
  get_empty_slot-full =
      let p = g.next_to_spill in
      let g0 = record g { next_to_spill = (g.next_to_spill + 1) % length g.registers } in
      let (g1, spilled, slots1, types1) = spill_slot-clean g0 p s here t typed in
      let s1 = record s { dirty = false } in
      let here1 : get_elem? g1.registers p ≡ some s1 =
        rw slots1 (get_elem?-set_self g.registers p s1 (get_elem?-lt g.registers p here)) in
      let x = vacate-Gives g1 p s1 here1 in
      let occupied =
        find_slot-none (λ s. not s.occupied) g.registers 0
          (All-map (λ s. (not s.occupied ≡ false) × (not s.dirty ≡ false))
            (λ s. not s.occupied ≡ false) g.registers (λ s h. h.0) full) in
      let dirty =
        find_slot-none (λ s. not s.dirty) g.registers 0
          (All-map (λ s. (not s.occupied ≡ false) × (not s.dirty ≡ false))
            (λ s. not s.dirty ≡ false) g.registers (λ s h. h.1) full) in
      record {
        after = x.after;
        returns =
            rw (occupied, dirty, get_empty_slot)
              (bind-ok (spill_slot p) _ g0 g1 tt spilled ∙ x.returns);
        slots = x.slots ∙ rw slots1 (set-set g.registers p s1 _);
        types = x.types ∙ types1;
      }

-- A register that is in no slot is loaded into the slot that `get_empty_slot` gives.
load_src_vreg-Missing :
    (g : Generator) (p : ℕ) (s : RegSlot) (v : ℕ) (t : IrType)
    → p < length g.registers
    → Missing v g.registers
    → find_vreg g.vregs v ≡ some t
    → Gives get_empty_slot g p s
    → Gives (load_src_vreg v) g p (record s { resident = v; occupied = true })
unfolding load_src_vreg reload put_slot
load_src_vreg-Missing g p s v t lt missing typed x =
    let g1 = x.after in
    let none_there = find_slot-none (λ s. s.occupied && s.resident == v) g.registers 0 missing in
    let (o, m, q) = offset_or_zero-found v g1 in
    let g2 = record g1 { spilled_vreg_fp_offsets = m } in
    let here : get_elem? g2.registers p ≡ some s =
      rw x.slots (get_elem?-set_self g.registers p s lt) in
    let s' = record s { resident = v; occupied = true } in
    record {
      after = record g2 {
        registers = set g2.registers p s';
        body = (write_reload t s.physical o g1.body).0;
      };
      returns =
          rw (none_there, load_src_vreg)
            (bind-ok get_empty_slot _ g g1 p x.returns
              ∙ bind-ok (offset_or_zero v) _ g1 g2 o q
              ∙ bind-ok (type_of_vreg v) _ g2 g2 t (type_of_vreg-found g2 v t (rw x.types typed))
              ∙ bind-ok (slot_at p) _ g2 g2 s (slot_at-found g2 p s here));
      slots = ap (λ ss. set ss p s') x.slots ∙ set-set g.registers p s s';
      types = x.types;
    }

-- After a reload into a full array the slot that was reloaded is the only clean one, and is given up
-- for the next value.
get_empty_slot-only_clean :
    (g : Generator) (ss : List RegSlot) (p : ℕ) (s : RegSlot)
    → g.registers ≡ set ss p s
    → IsFull ss
    → p < length ss
    → not s.occupied ≡ false
    → not s.dirty ≡ true
    → Gives get_empty_slot g p (record s { occupied = false })
unfolding get_empty_slot
get_empty_slot-only_clean g ss p s e full lt occupied clean =
    let all_occupied =
      All-map (λ s. (not s.occupied ≡ false) × (not s.dirty ≡ false)) (λ s. not s.occupied ≡ false)
        ss (λ s h. h.0) full in
    let all_dirty =
      All-map (λ s. (not s.occupied ≡ false) × (not s.dirty ≡ false)) (λ s. not s.dirty ≡ false) ss
        (λ s h. h.1) full in
    let no_free : find_slot (λ s. not s.occupied) g.registers 0 ≡ none = rw e (
      find_slot-none (λ s. not s.occupied) (set ss p s) 0
        (All-set (λ s. not s.occupied ≡ false) ss p s all_occupied occupied)) in
    let only : find_slot (λ s. not s.dirty) g.registers 0 ≡ some p =
      rw e (find_slot-set (λ s. not s.dirty) ss 0 p s all_dirty clean lt ∙ ap some (omega arith)) in
    let x = vacate-Gives g p s (rw e (get_elem?-set_self ss p s lt)) in
    record {
      after = x.after;
      returns = rw (no_free, only, get_empty_slot) x.returns;
      slots = x.slots;
      types = x.types;
    }

-- Where every slot is occupied and dirty, and neither of two different registers is in a slot,
-- loading one and then the other succeeds, gives the same slot for both, and leaves the second in
-- it: the first operand is lost.
pub load_src_vreg-aliases :
    (g : Generator) (s : RegSlot) (v w : ℕ) (t tv tw : IrType)
    → get_elem? g.registers g.next_to_spill ≡ some s
    → All
        (λ s. (s.occupied ≡ true) × (s.dirty ≡ true) × (s.resident ≢ v) × (s.resident ≢ w))
        g.registers
    → v ≢ w
    → find_vreg g.vregs s.resident ≡ some t
    → find_vreg g.vregs v ≡ some tv
    → find_vreg g.vregs w ≡ some tw
    → (g1 : Generator) × (g2 : Generator) × (s2 : RegSlot) × (load_src_vreg v g
        ≡ ok (g.next_to_spill, g1))
      × (load_src_vreg w g1 ≡ ok (g.next_to_spill, g2))
      × (get_elem? g2.registers g.next_to_spill ≡ some s2)
      × (s2.resident ≡ w)
load_src_vreg-aliases g s v w t tv tw here all_ ne ht hv hw =
    let p = g.next_to_spill in
    let ss = g.registers in
    let lt = get_elem?-lt ss p here in
    let P = λ (s : RegSlot).
      (s.occupied ≡ true) × (s.dirty ≡ true) × (s.resident ≢ v) × (s.resident ≢ w) in
    let full =
      All-map P (λ s. (not s.occupied ≡ false) × (not s.dirty ≡ false)) ss
        (λ s h. (ap not h.0, ap not h.1)) all_ in
    let missing_v =
      All-map P (λ s. (s.occupied && s.resident == v) ≡ false) ss
        (λ s h. rw h.0 (==-ne s.resident v h.2)) all_ in
    let missing_w =
      All-map P (λ s. (s.occupied && s.resident == w) ≡ false) ss
        (λ s h. rw h.0 (==-ne s.resident w h.3)) all_ in
    let s1 = record s { resident = v; occupied = true; dirty = false } in
    let x =
      load_src_vreg-Missing g p (record s { dirty = false; occupied = false }) v tv lt missing_v hv
        (get_empty_slot-full g s here t ht full) in
    let g1 = x.after in
    let lt1 : p < length g1.registers = rw (x.slots, length-set ss p s1) lt in
    let y =
      load_src_vreg-Missing g1 p (record s1 { occupied = false }) w tw lt1
        (rw x.slots
          (All-set (λ s. (s.occupied && s.resident == w) ≡ false) ss p s1 missing_w (==-ne v w ne)))
        (rw x.types hw) (get_empty_slot-only_clean g1 ss p s1 x.slots full lt refl refl) in
    (
      g1,
      y.after,
      record s1 { resident = w },
      x.returns,
      y.returns,
      rw y.slots (get_elem?-set_self g1.registers p (record s1 { resident = w }) lt1),
      refl,
    )
