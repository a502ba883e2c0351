-- ===== src/Prelude/Results.antt =====
-- Results of code that may raise: a value, or the exception.
use mathlib.Core.Path.{◌≡◌, refl}
use mathlib.Core.Bool.{Bool, true, false}
use mathlib.Core.Option.{Option, none, some}

pub data Result {ℓ} (E A : Type ℓ) : Type ℓ where
  err : E → Result E A
  ok : A → Result E A

-- An exception ends the block.
infixl 5 ◌>>=◌ ◌>>◌
abbrev pub ◌>>=◌ {ℓ} : {E A B : Type ℓ} → Result E A → (A → Result E B) → Result E B
err e >>= rest = err e
ok a >>= rest = rest a

abbrev pub ◌>>◌ {ℓ} : {E B : Type ℓ} → Result E (Unit {ℓ}) → Result E B → Result E B
m >> k = m >>= λ _. k

-- `if bad: raise e`
abbrev pub raise_if {ℓ} : {E : Type ℓ} → Bool → E → Result E (Unit {ℓ})
raise_if true e = err e
raise_if false e = ok tt

-- A value, or an exception where there is none
abbrev pub some_or {ℓ} : {E A : Type ℓ} → E → Option A → Result E A
some_or e none = err e
some_or e (some a) = ok a

-- `except E as e: raise f(e) from e`
abbrev pub map_err {ℓ} : {E F A : Type ℓ} → (E → F) → Result E A → Result F A
map_err f (ok a) = ok a
map_err f (err e) = err (f e)

-- `raise_if` let the program go on, so its test was false.
pub raise_if-eq-ok {ℓ} :
    {E A : Type ℓ} (b : Bool) (e : E) (k : Result E A) {a : A}
    → (raise_if b e >> k) ≡ ok a
    → (b ≡ false) × (k ≡ ok a)
raise_if-eq-ok true e k h = cc
raise_if-eq-ok false e k h = (refl, h)

-- A block that returned went through its first step.
pub bind-eq-ok {ℓ} :
    {E A B : Type ℓ} {b : B} (step : Result E A) (rest : A → Result E B)
    → (step >>= rest) ≡ ok b
    → (a : A) × (step ≡ ok a) × (rest a ≡ ok b)
bind-eq-ok (err e) rest returned = cc
bind-eq-ok (ok a) rest returned = (a, refl, returned)

pub map_err-eq-ok {ℓ} :
    {E F A : Type ℓ} (f : E → F) (r : Result E A) {a : A} → map_err f r ≡ ok a → r ≡ ok a
map_err-eq-ok f (err e) h = cc
map_err-eq-ok f (ok x) h = cc

-- A block that ends in a return gives that value.
pub ok-injective {ℓ} : {E A : Type ℓ} (a b : A) → ◌≡◌ {A = Result E A} (ok a) (ok b) → a ≡ b
ok-injective a b h = cc

-- A result with the property, or an exception of the given kind
abbrev pub Ends : {E A : Type 0} → (E → Bool) → (A → Type 0) → Result E A → Type 0
Ends kind P (ok a) = P a
Ends kind P (err e) = kind e ≡ true

pub Ends-bind :
    {E A B : Type 0} (kind : E → Bool) (P : A → Type 0) (Q : B → Type 0) (m : Result E A)
    (f : A → Result E B)
    → Ends kind P m
    → ((a : A) → P a → Ends kind Q (f a))
    → Ends kind Q (m >>= f)
Ends-bind kind P Q (ok a) f h k = k a h
Ends-bind kind P Q (err e) f h k = h

pub Ends-raise_if :
    {E B : Type 0} (kind : E → Bool) (Q : B → Type 0) (b : Bool) (e : E) (k : Result E B)
    → kind e ≡ true
    → Ends kind Q k
    → Ends kind Q (raise_if b e >> k)
Ends-raise_if kind Q true e k g h = g
Ends-raise_if kind Q false e k g h = h

pub Ends-some_or :
    {E A : Type 0} (kind : E → Bool) (e : E) (o : Option A)
    → kind e ≡ true
    → Ends kind (λ a. o ≡ some a) (some_or e o)
Ends-some_or kind e none g = g
Ends-some_or kind e (some a) g = refl

-- The result is the one that the step gave.
pub Ends-known :
    {E A : Type 0} (kind : E → Bool) (P : A → Type 0) (r : Result E A)
    → Ends kind P r
    → Ends kind (λ a. r ≡ ok a) r
Ends-known kind P (ok a) h = refl
Ends-known kind P (err e) h = h

-- No more is known of a value.
abbrev pub Anything : {A : Type 0} → A → Type 0
Anything a = Unit

pub some_or-eq-ok {ℓ} :
    {E A : Type ℓ} (e : E) (o : Option A) {a : A} → some_or e o ≡ ok a → o ≡ some a
some_or-eq-ok e none h = cc
some_or-eq-ok e (some x) h = cc
