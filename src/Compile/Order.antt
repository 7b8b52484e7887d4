-- ===== src/Compile/Order.antt =====
-- The map of `CompileSettings` in compile.hpp: its order, its lookups and `furthest`.
use sasc.Prelude.{
  ℕ, ◌<◌, ◌≤◌, ◌≡◌, ◌≢◌, refl, sym, ap, ◌∙◌, subst, Bool, true, false, Bool-cases, Option, none,
  some, inl, inr, [], ◌∷◌, ltb, ◌==◌, ltb→lt, ==_iff, ==_refl, if◌then◌else◌, All, arith, or_other,
}
use sasc.Error.{internal, Result, ok, err}
use sasc.Compile.Settings.{
  EmitKind, EmitTarget, Emits, CompileSettings, stage, same_emit_kind, insert, find, is_some, wants,
  last_kind, furthest,
}

-- The keys are in the order of the stages, each there once.
abbrev pub IsSorted : Emits → Type 0
IsSorted [] = Unit
IsSorted ((k, t) ∷ emits) = All (λ e. stage k < stage e.0) emits × IsSorted emits

three-way {ℓ κ} :
    {A : Type ℓ} (P : A → Type κ) (a b : Bool) {x y z : A}
    → (a ≡ true → P x)
    → (a ≡ false → b ≡ true → P y)
    → (a ≡ false → b ≡ false → P z)
    → P (if a then x else if b then y else z)
three-way P true b f g h = f refl
three-way P false true f g h = g refl refl
three-way P false false f g h = h refl refl

not-ltb : (a b : ℕ) → ltb a b ≡ false → (a == b) ≡ false → b < a
not-ltb a b h e = ground arith

not-== : (a b : ℕ) → a < b → (b == a) ≡ false
not-== a b h = ground arith

insert-All :
    (k l : EmitKind) (t : EmitTarget) (emits : Emits)
    → stage l < stage k
    → All (λ e. stage l < stage e.0) emits
    → All (λ e. stage l < stage e.0) (insert k t emits)
unfolding insert
insert-All k l t [] h all = (h, tt)
insert-All k l t ((m, u) ∷ emits) h all =
    three-way (λ (es : Emits). All (λ e. stage l < stage e.0) es) (ltb (stage k) (stage m))
      (stage k == stage m) (λ _. (h, all)) (λ _ _. all)
      (λ _ _. (all.0, insert-All k l t emits h all.1))

weaken-All :
    (k l : EmitKind) (emits : Emits)
    → stage k < stage l
    → All (λ e. stage l < stage e.0) emits
    → All (λ e. stage k < stage e.0) emits
weaken-All k l [] h all = tt
weaken-All k l ((m, u) ∷ emits) h all = (omega (arith, all.0), weaken-All k l emits h all.1)

-- `insert` keeps the order of the keys.
pub insert-IsSorted :
    (k : EmitKind) (t : EmitTarget) (emits : Emits) → IsSorted emits → IsSorted (insert k t emits)
unfolding insert
insert-IsSorted k t [] s = (tt, tt)
insert-IsSorted k t ((l, u) ∷ emits) s =
    three-way IsSorted (ltb (stage k) (stage l)) (stage k == stage l)
      (λ h.
        let below = ltb→lt (stage k) (stage l) h in ((below, weaken-All k l emits below s.0), s))
      (λ _ _. s)
      (λ h e. (
        insert-All k l t emits (not-ltb (stage k) (stage l) h e) s.0,
        insert-IsSorted k t emits s.1,
      ))

find-above :
    (k l : EmitKind) (emits : Emits)
    → stage k ≤ stage l
    → All (λ e. stage l < stage e.0) emits
    → find k emits ≡ none
unfolding find same_emit_kind
find-above k l [] h all = refl
find-above k l ((m, u) ∷ emits) h all =
    rw (not-== (stage k) (stage m) (omega (arith, all.0))) (find-above k l emits h all.1)

false-not-true : false ≢ true
false-not-true e = cc

or_self {ℓ} :
    {A : Type ℓ} (n : ℕ) (a : A) (o : Option A) → is_some (if n == n then some a else o) ≡ true
or_self n a o = rw (==_refl n) refl

or_other-none {ℓ} : {A : Type ℓ} (o : Option A) → or_other o none ≡ o
or_other-none none = refl
or_other-none (some a) = refl

before-else {ℓ} :
    {A : Type ℓ} (here : Bool) (t : A) (o : Option A)
    → (here ≡ true → o ≡ none)
    → (if here then some t else o) ≡ or_other o (if here then some t else none)
before-else true t o h = rw (h refl) refl
before-else false t o h = sym (or_other-none o)

same-else {ℓ} :
    {A : Type ℓ} (found here : Bool) (t u : A) (o : Option A)
    → found ≡ here
    → (if found then some u else o)
      ≡ or_other (if found then some u else o) (if here then some t else none)
same-else true here t u o e = refl
same-else false true t u o e = cc
same-else false false t u o e = sym (or_other-none o)

later-else {ℓ} :
    {A : Type ℓ} (found : Bool) (u : A) (o p q : Option A)
    → p ≡ or_other o q
    → (if found then some u else p) ≡ or_other (if found then some u else o) q
later-else true u o p q e = refl
later-else false u o p q e = e

-- An entry that is put in is found where there was none under its key.
pub find-insert :
    (k l : EmitKind) (t : EmitTarget) (emits : Emits)
    → IsSorted emits
    → find k (insert l t emits)
      ≡ or_other (find k emits) (if same_emit_kind l k then some t else none)
unfolding find insert same_emit_kind
find-insert k l t [] s = refl
find-insert k l t ((m, u) ∷ emits) s =
    three-way
      (λ es.
        find k es
        ≡ or_other (find k ((m, u) ∷ emits)) (if same_emit_kind l k then some t else none))
      (ltb (stage l) (stage m)) (stage l == stage m)
      (λ h.
        let below = ltb→lt (stage l) (stage m) h in
        before-else (stage l == stage k) t (find k ((m, u) ∷ emits)) (λ e.
          find-above k l ((m, u) ∷ emits) (omega (arith, (==_iff (stage l) (stage k)).0 e))
            (below, weaken-All l m emits below s.0)))
      (λ h e.
        same-else (stage m == stage k) (stage l == stage k) t u (find k emits)
          (ap (λ n. n == stage k) (sym ((==_iff (stage l) (stage m)).0 e))))
      (λ h e. later-else (stage m == stage k) u (find k emits) _ _ (find-insert k l t emits s.1))

found-above :
    (k l : EmitKind) (emits : Emits)
    → All (λ e. stage k < stage e.0) emits
    → is_some (find l emits) ≡ true
    → stage k < stage l
unfolding find same_emit_kind
found-above k l [] all h = cc
found-above k l ((m, u) ∷ emits) all h = elim (Bool-cases (stage m == stage l)) [
  | inl e ↦ omega (arith, (==_iff (stage m) (stage l)).0 e, all.0)
  | inr e ↦
      found-above k l emits all.1
        (subst (λ b. is_some (if b then some u else find l emits) ≡ true) e h)
]

or_found {ℓ} :
    {A : Type ℓ} (b : Bool) (a : A) (o : Option A)
    → is_some o ≡ true
    → is_some (if b then some a else o) ≡ true
or_found true a o h = refl
or_found false a o h = h

-- The furthest of some entries is one of them, and none is behind it.
abbrev IsLast : Emits → Option EmitKind → Type 0
IsLast emits none = (l : EmitKind) → is_some (find l emits) ≡ false
IsLast emits (some k) =
    (is_some (find k emits) ≡ true)
    × ((l : EmitKind) → is_some (find l emits) ≡ true → stage l ≤ stage k)

cons-IsLast :
    (l : EmitKind) (t : EmitTarget) (m : EmitKind) (u : EmitTarget) (emits : Emits)
    (o : Option EmitKind)
    → IsSorted ((l, t) ∷ ((m, u) ∷ emits))
    → IsLast ((m, u) ∷ emits) o
    → IsLast ((l, t) ∷ ((m, u) ∷ emits)) o
unfolding find same_emit_kind
cons-IsLast l t m u emits none s h =
    absurd (false-not-true (sym (h m) ∙ or_self (stage m) u (find m emits)))
cons-IsLast l t m u emits (some k) s h = (
  or_found (stage l == stage k) t (find k ((m, u) ∷ emits)) h.0,
  λ n w. elim (Bool-cases (stage l == stage n)) [
    | inl e ↦
        omega (arith, (==_iff (stage l) (stage n)).0 e, found-above l k ((m, u) ∷ emits) s.0 h.0)
    | inr e ↦
        h.1 n (subst (λ b. is_some (if b then some t else find n ((m, u) ∷ emits)) ≡ true) e w)
  ],
)

last_kind-IsLast : (emits : Emits) → IsSorted emits → IsLast emits (last_kind emits)
unfolding last_kind find same_emit_kind
last_kind-IsLast [] s = λ l. refl
last_kind-IsLast ((l, t) ∷ []) s = (
  or_self (stage l) t none,
  λ n w. elim (Bool-cases (stage l == stage n)) [
    | inl e ↦ omega (arith, (==_iff (stage l) (stage n)).0 e)
    | inr e ↦ absurd (false-not-true (subst (λ b. is_some (if b then some t else none) ≡ true) e w))
  ],
)
last_kind-IsLast ((l, t) ∷ ((m, u) ∷ emits)) s =
    cons-IsLast l t m u emits (last_kind ((m, u) ∷ emits)) s (last_kind-IsLast ((m, u) ∷ emits) s.1)

-- What `furthest` is to give: an error where nothing is wanted, and else what is wanted and has nothing
-- wanted behind it.
abbrev pub IsFurthest : CompileSettings → Result EmitKind → Type 0
IsFurthest settings (err e) = (l : EmitKind) → wants l settings ≡ false
IsFurthest settings (ok k) =
    (wants k settings ≡ true) × ((l : EmitKind) → wants l settings ≡ true → stage l ≤ stage k)

IsFurthest-of :
    (settings : CompileSettings) (o : Option EmitKind)
    → IsLast settings.emits o
    → IsFurthest settings (elim o [ none ↦ err internal | some k ↦ ok k ])
unfolding wants
IsFurthest-of settings none h = h
IsFurthest-of settings (some k) h = h

-- Where the map is in order, the stage that `furthest` gives is one that is wanted and no later stage is
-- wanted; it is an error only where nothing is wanted.
pub furthest-IsFurthest :
    (settings : CompileSettings) → IsSorted settings.emits → IsFurthest settings (furthest settings)
unfolding furthest
furthest-IsFurthest settings s =
    IsFurthest-of settings (last_kind settings.emits) (last_kind-IsLast settings.emits s)
