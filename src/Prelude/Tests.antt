-- ===== src/Prelude/Tests.antt =====
-- Boolean tests on the native numbers, the conditional, and case lemmas.
use Prim.Native.Nat.{ℕ, ◌≤◌, ◌<◌, compare, Ordering}
use mathlib.Core.Path.{◌≡◌, refl, sym, ◌∙◌}
use mathlib.Core.Logic.{◌↔◌, ◌⊎◌, inl, inr}
use mathlib.Core.Bool.{Bool, true, false, not, ◌&&◌, ◌||◌}
use mathlib.Core.Option.{Option, none, some}
use native.Mathlib.Omega.{arith}

abbrev pub ltb : ℕ → ℕ → Bool
ltb a b = elim (compare a b) [ Ordering.lt ↦ true | _ ↦ false ]

abbrev pub leb : ℕ → ℕ → Bool
leb a b = elim (compare a b) [ Ordering.gt ↦ false | _ ↦ true ]

abbrev pub nat_beq : ℕ → ℕ → Bool
nat_beq a b = elim (compare a b) [ Ordering.eq ↦ true | _ ↦ false ]

infix 1 if◌then◌else◌
abbrev pub if◌then◌else◌ {ℓ} : {A : Type ℓ} → Bool → A → A → A
if true then x else y = x
if false then x else y = y

pub ltb→lt : (a b : ℕ) → ltb a b ≡ true → a < b
ltb→lt a b h = ground arith

pub lt→ltb : (a b : ℕ) → a < b → ltb a b ≡ true
lt→ltb a b h = ground arith

pub leb→le : (a b : ℕ) → leb a b ≡ true → a ≤ b
leb→le a b h = ground arith

pub le→leb : (a b : ℕ) → a ≤ b → leb a b ≡ true
le→leb a b h = ground arith

pub nat_beq_iff : (a b : ℕ) → (nat_beq a b ≡ true) ↔ (a ≡ b)
nat_beq_iff a b = ground arith

pub Bool-cases : (b : Bool) → (b ≡ true) ⊎ (b ≡ false)
Bool-cases true = inl refl
Bool-cases false = inr refl

pub Option-cases {ℓ} : {A : Type ℓ} (o : Option A) → (o ≡ none) ⊎ ((a : A) × (o ≡ some a))
Option-cases none = inl refl
Option-cases (some a) = inr (a, refl)

-- `x is None`
abbrev pub is_none {ℓ} : {A : Type ℓ} → Option A → Bool
is_none none = true
is_none (some a) = false

infix 50 ◌==◌
-- The types whose values the program compares.
pub record HasEqual {ℓ} (T : Type ℓ) : Type ℓ where
  pub equal : T → T → Bool
  pub equal_iff : (x y : T) → (equal x y ≡ true) ↔ (x ≡ y)

instance abbrev pub nat_eq : HasEqual ℕ
nat_eq = record { equal = nat_beq; equal_iff = nat_beq_iff }

-- `x == y`
abbrev pub ◌==◌ {ℓ} : {T : Type ℓ} ⦃c : HasEqual T⦄ → T → T → Bool
◌==◌ ⦃c⦄ = c.equal

pub beq_refl {ℓ} : {A : Type ℓ} ⦃e : HasEqual A⦄ (a : A) → (a == a) ≡ true
beq_refl ⦃e⦄ a = (e.equal_iff a a).1 refl

-- The library's `&&` is opened where it computes; this is its law for a true conjunction.
pub and-true : (a b : Bool) → (a && b) ≡ true → (a ≡ true) × (b ≡ true)
and-true true true h = (refl, refl)
and-true true false h = (refl, h)
and-true false b h = ground arith

pub or_mono :
    (p p' q q' : Bool)
    → (p ≡ true → p' ≡ true)
    → (q ≡ true → q' ≡ true)
    → (p || q) ≡ true
    → (p' || q') ≡ true
or_mono true p' q q' f g h = ground (arith, f refl)
or_mono false p' q q' f g h = ground (arith, g h)

pub or_right : (p q : Bool) → q ≡ true → (p || q) ≡ true
or_right true q h = refl
or_right false q h = h

-- `a != b` on Booleans
abbrev pub differ : Bool → Bool → Bool
differ true b = not b
differ false b = b

pub not-false : (b : Bool) → not b ≡ false → b ≡ true
not-false true h = refl
not-false false h = cc

pub differ-false : (a b : Bool) → differ a b ≡ false → a ≡ b
differ-false true true h = refl
differ-false true false h = cc
differ-false false true h = cc
differ-false false false h = refl

pub beq_sym {ℓ} : {A : Type ℓ} ⦃e : HasEqual A⦄ (a b : A) → (a == b) ≡ (b == a)
beq_sym ⦃e⦄ a b = elim (Bool-cases (a == b)) [
  | inl h ↦ h ∙ sym ((e.equal_iff b a).1 (sym ((e.equal_iff a b).0 h)))
  | inr h ↦ elim (Bool-cases (b == a)) [
    | inl g ↦ (e.equal_iff a b).1 (sym ((e.equal_iff b a).0 g)) ∙ sym g
    | inr g ↦ h ∙ sym g
  ]
]

-- A block that ends in a value gives that value.
pub some-injective {ℓ} : {A : Type ℓ} (a b : A) → some a ≡ some b → a ≡ b
some-injective a b h = cc
