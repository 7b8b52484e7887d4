-- ===== src/Ir/Printer/Reachable.antt =====
-- The traversal `reachable_blocks` of ir/IrPrinter.cpp, against the blocks that can be reached.
use sasc.Prelude.{
  get_elem?-found, true-not-false, ℕ, zero, suc, ◌+◌, ◌*◌, ◌≤◌, ◌<◌, ◌≡◌, refl, sym, ap, subst, ◌∙◌,
  Bool, true, false, Bool-cases, ◌||◌, if◌then◌else◌, ◌⊎◌, inl, inr, ◌↔◌, Option, none, some, List,
  [], ◌∷◌, ◌++◌, length, length-append, get_elem?, arith,
}
use sasc.Frontend.Outcome.{returns, Surely, gives, >>=-Ensures, if-Ensures, Ensures-weaken, ◌>>=◌}
use sasc.Ir.Defs.{Kind, jump_kind, branch_kind, return_kind, BasicBlock, Function}
use sasc.Ir.Printer.{Successor, successor_places}
use sasc.Ir.Printer.Object.{is_seen, visit, reachable_blocks}
use sasc.Ir.Printer.Seen.{
  In, In-here, In-there, In-cases, In-append_cases, In-left, In-right, unseen, unseen-le,
  unseen-cons_lt,
}

-- Where a terminator leads: a jump to one block, a branch to two, a return to none.
abbrev pub edges : Option Kind → Successor × Successor → List ℕ
edges none (to, other) = []
edges (some return_kind) (to, other) = []
edges (some jump_kind) (to, other) = to.bb ∷ []
edges (some branch_kind) (to, other) = to.bb ∷ (other.bb ∷ [])

successor_places-edges :
    (kind : Option Kind) (s : Successor × Successor) → successor_places kind s ≡ edges kind s
unfolding successor_places
successor_places-edges none (to, other) = refl
successor_places-edges (some return_kind) (to, other) = refl
successor_places-edges (some jump_kind) (to, other) = refl
successor_places-edges (some branch_kind) (to, other) = refl

-- The places where the block at a place leads.
unfoldable pub next_places : List BasicBlock → (ℕ → Successor × Successor) → ℕ → List ℕ
next_places blocks successors place = elim (get_elem? blocks place) [
  | none ↦ []
  | some bb ↦ edges bb.terminator.kind (successors place)
]

-- The places that can be reached from some places.
pub data Reaches (blocks : List BasicBlock) (successors : ℕ → Successor × Successor) (from : List ℕ)
    : ℕ → Type 0 where
  start : {p : ℕ} → In p from → Reaches blocks successors from p
  onward :
      {p q : ℕ}
      → Reaches blocks successors from p
      → In q (next_places blocks successors p)
      → Reaches blocks successors from q

abbrev pub IsDistinct : List ℕ → Type 0
IsDistinct [] = Unit
IsDistinct (x ∷ xs) = (is_seen x xs ≡ false) × IsDistinct xs

length-successors :
    (kind : Option Kind) (s : Successor × Successor) → length (successor_places kind s) ≤ 2
unfolding successor_places
length-successors none s = omega arith
length-successors (some return_kind) s = omega arith
length-successors (some jump_kind) s = omega arith
length-successors (some branch_kind) s = omega arith

module _ (blocks : List BasicBlock) (successors : ℕ → Successor × Successor) where
  -- What a run of the loop gives.
  record Visited (seen stack places : List ℕ) : Type 0 where
    pub starts : (q : ℕ) → In q stack → In q seen ⊎ In q places
    pub steps :
        (p q : ℕ) → In p places → In q (next_places blocks successors p) → In q seen ⊎ In q places
    pub reached : (p : ℕ) → In p places → Reaches blocks successors stack p
    pub distinct : IsDistinct places
    pub fresh : (p : ℕ) → In p places → is_seen p seen ≡ false

  onward-Reaches :
      {from to : List ℕ} {p : ℕ}
      → ((q : ℕ) → In q from → Reaches blocks successors to q)
      → Reaches blocks successors from p
      → Reaches blocks successors to p
  onward-Reaches k (start h) = k _ h
  onward-Reaches k (onward r h) = onward (onward-Reaches k r) h

  shift :
      (b : ℕ) (seen rest : List ℕ) (q : ℕ)
      → In q (b ∷ seen) ⊎ In q rest
      → In q seen ⊎ In q (b ∷ rest)
  shift b seen rest q (inr h) = inr (In-there q b rest h)
  shift b seen rest q (inl h) = elim (In-cases q b seen h) [
    | inl e ↦ inr (subst (λ y. In y (b ∷ rest)) e (In-here b rest))
    | inr k ↦ inl k
  ]

  skipped-Visited :
      (b : ℕ) (seen stack places : List ℕ)
      → In b seen
      → Visited seen stack places
      → Visited seen (b ∷ stack) places
  skipped-Visited b seen stack places h v = record {
    starts = λ q m. elim (In-cases q b stack m) [
      | inl e ↦ inl (subst (λ y. In y seen) e h)
      | inr k ↦ v.starts q k
    ];
    steps = v.steps;
    reached = λ p m. onward-Reaches (λ q k. start (In-there q b stack k)) (v.reached p m);
    distinct = v.distinct;
    fresh = v.fresh;
  }

  or_false : (b c : Bool) → b || c ≡ false → c ≡ false
  or_false true c h = cc
  or_false false c h = h

  not-again :
      (b : ℕ) (seen stack places : List ℕ)
      → Visited (b ∷ seen) stack places
      → is_seen b places ≡ false
  not-again b seen stack places v = elim (Bool-cases (is_seen b places)) [
    | inl e ↦ absurd (true-not-false (sym (In-here b seen) ∙ v.fresh b e))
    | inr e ↦ e
  ]

  taken-Visited :
      (b : ℕ) (seen stack places : List ℕ)
      → is_seen b seen ≡ false
      → Visited (b ∷ seen) (next_places blocks successors b ++ stack) places
      → Visited seen (b ∷ stack) (b ∷ places)
  unfolding is_seen
  taken-Visited b seen stack places h v =
      let next = next_places blocks successors b in
      record {
        starts = λ q m. elim (In-cases q b stack m) [
          | inl e ↦ inr (subst (λ y. In y (b ∷ places)) e (In-here b places))
          | inr k ↦ shift b seen places q (v.starts q (In-right q next stack k))
        ];
        steps = λ p q m n. elim (In-cases p b places m) [
          | inl e ↦
              let n' = subst (λ y. In q (next_places blocks successors y)) (sym e) n in
              shift b seen places q (v.starts q (In-left q next stack n'))
          | inr k ↦ shift b seen places q (v.steps p q k n)
        ];
        reached = λ p m. elim (In-cases p b places m) [
          | inl e ↦ start (subst (λ y. In y (b ∷ stack)) e (In-here b stack))
          | inr k ↦
              onward-Reaches
                (λ q j. elim (In-append_cases q next stack j) [
                  | inl i ↦ onward (start (In-here b stack)) i
                  | inr i ↦ start (In-there q b stack i)
                ])
                (v.reached p k)
        ];
        distinct = (not-again b seen (next ++ stack) places v, v.distinct);
        fresh = λ p m. elim (In-cases p b places m) [
          | inl e ↦ subst (λ y. is_seen y seen ≡ false) e h
          | inr k ↦ or_false _ (is_seen p seen) (v.fresh p k)
        ];
      }

  empty-Visited : (seen : List ℕ) → Visited seen [] []
  unfolding is_seen
  empty-Visited seen = record {
    starts = λ q m. cc;
    steps = λ p q m n. cc;
    reached = λ p m. cc;
    distinct = tt;
    fresh = λ p m. cc;
  }

  Visited-found :
      (place : ℕ) (bb : BasicBlock) (seen stack places : List ℕ)
      → get_elem? blocks place ≡ some bb
      → Visited
          (place ∷ seen)
          (successor_places bb.terminator.kind (successors place) ++ stack)
          places
      → Visited (place ∷ seen) (next_places blocks successors place ++ stack) places
  unfolding next_places
  Visited-found place bb seen stack places g v =
      let same = successor_places-edges bb.terminator.kind (successors place) in
      rw (g, next_places) (subst (λ next. Visited (place ∷ seen) (next ++ stack) places) same v)

  visit-found :
      (fuel place : ℕ) (bb : BasicBlock) (seen to_visit : List ℕ)
      → get_elem? blocks place ≡ some bb
      → bb.id ≡ place
      → visit (suc fuel) blocks successors seen (place ∷ to_visit) ≡ (
          if is_seen place seen
          then visit fuel blocks successors seen to_visit
          else visit fuel blocks successors
              (place ∷ seen)
              (successor_places bb.terminator.kind (successors place) ++ to_visit)
            >>= (λ places. returns (place ∷ places)))
  unfolding visit
  visit-found fuel place bb seen to_visit g e =
      rw (g, visit)
        (ap
          (λ id.
            if is_seen id seen
            then visit fuel blocks successors seen to_visit
            else visit fuel blocks successors (id ∷ seen)
                (successor_places bb.terminator.kind (successors place) ++ to_visit)
              >>= (λ places. returns (place ∷ places)))
          e)

  next-In :
      (p q : ℕ) (bb : BasicBlock)
      → get_elem? blocks p ≡ some bb
      → In q (successor_places bb.terminator.kind (successors p))
      → In q (next_places blocks successors p)
  unfolding next_places
  next-In p q bb g h =
      rw (g, next_places)
        (subst (In q) (successor_places-edges bb.terminator.kind (successors p)) h)

  -- On more fuel than three times the blocks that are not seen and those to visit, the loop ends.
  visit-Visited :
      ((p : ℕ) (b : BasicBlock) → get_elem? blocks p ≡ some b → b.id ≡ p)
      → ((p q : ℕ) → In q (next_places blocks successors p) → q < length blocks)
      → (fuel : ℕ) (seen stack : List ℕ) → ((q : ℕ) → In q stack → q < length blocks)
      → 3 * unseen (length blocks) seen + length stack < fuel
      → Surely (Visited seen stack) (visit fuel blocks successors seen stack)
  unfolding visit
  visit-Visited numbered closed zero seen stack inside enough = absurd (omega (arith, enough))
  visit-Visited numbered closed (suc fuel) seen [] inside enough = gives [] (empty-Visited seen)
  visit-Visited numbered closed (suc fuel) seen (p ∷ stack) inside enough =
      let below = inside p (In-here p stack) in
      let (bb, g) = get_elem?-found blocks p below in
      let next = successor_places bb.terminator.kind (successors p) in
      subst (Surely (Visited seen (p ∷ stack)))
        (sym (visit-found fuel p bb seen stack g (numbered p bb g)))
        (if-Ensures (is_seen p seen)
          (λ h.
            Ensures-weaken
              (visit-Visited numbered closed fuel seen stack
                (λ q m. inside q (In-there q p stack m)) (omega (arith, enough)))
              (λ places v. skipped-Visited p seen stack places h v))
          (λ h.
            >>=-Ensures
              (visit-Visited numbered closed fuel (p ∷ seen) (next ++ stack)
                (λ q m. elim (In-append_cases q next stack m) [
                  | inl i ↦ closed p q (next-In p q bb g i)
                  | inr i ↦ inside q (In-there q p stack i)
                ])
                (omega (
                  arith,
                  enough,
                  length-append next stack,
                  length-successors bb.terminator.kind (successors p),
                  unseen-cons_lt (length blocks) p seen h below,
                )))
              (λ places v.
                gives (p ∷ places) (
                  taken-Visited p seen stack places h (Visited-found p bb seen stack places g v)))))

seen-or_place : (q : ℕ) (places : List ℕ) → In q [] ⊎ In q places → In q places
unfolding is_seen
seen-or_place q places (inl h) = cc
seen-or_place q places (inr h) = h

all-reached :
    (blocks : List BasicBlock) (successors : ℕ → Successor × Successor) (stack places : List ℕ)
    (p : ℕ)
    → Visited blocks successors [] stack places
    → Reaches blocks successors stack p
    → In p places
all-reached blocks successors stack places p v (start h) = seen-or_place p places (v.starts p h)
all-reached blocks successors stack places p v (onward {p = q} r h) =
    seen-or_place p places (v.steps q p (all-reached blocks successors stack places q v r) h)

-- Where a block's number is its place and no successor is outside, the traversal of a function comes to
-- an end: it gives the entry and the places that can be reached from it, no others, and each once.
pub reachable_blocks-Reaches :
    (fn : Function) (successors : ℕ → Successor × Successor)
    → ((p : ℕ) (b : BasicBlock) → get_elem? fn.blocks p ≡ some b → b.id ≡ p)
    → ((p q : ℕ) → In q (next_places fn.blocks successors p) → q < length fn.blocks)
    → fn.entry < length fn.blocks
    → Surely
        (λ places.
          IsDistinct places
          × ((p : ℕ) → (In p places ↔ Reaches fn.blocks successors (fn.entry ∷ []) p)))
        (reachable_blocks fn successors)
unfolding reachable_blocks is_seen
reachable_blocks-Reaches fn successors numbered closed inside =
    Ensures-weaken
      (visit-Visited fn.blocks successors numbered closed (3 * length fn.blocks + 2) []
        (fn.entry ∷ [])
        (λ q m. elim (In-cases q fn.entry [] m) [
          | inl e ↦ subst (λ y. y < length fn.blocks) e inside
          | inr k ↦ absurd (true-not-false (sym k))
        ])
        (omega (arith, unseen-le (length fn.blocks) [])))
      (λ places v. (
        v.distinct,
        λ p. (v.reached p, all-reached fn.blocks successors (fn.entry ∷ []) places p v),
      ))
