-- ===== src/Prelude/Result.antt =====
-- Code that may raise: the error as a value, and `do` blocks over it.
use mathlib.Core.Path.{◌≡◌, refl, subst}
use mathlib.Core.Bool.{Bool, true, false}
use mathlib.Core.Option.{Option, some}
use mathlib.Core.List.{List, [], ◌∷◌}

pub data Result {ℓ κ} (E : Type ℓ) (A : Type κ) : Type (ℓ ⊔ κ) where
  ok : A → Result E A
  err : E → Result E A

infixl 5 ◌>>=◌ ◌>>◌
abbrev pub ◌>>=◌ {ℓ κ μ} :
    {E : Type ℓ} {A : Type κ} {B : Type μ} → Result E A → (A → Result E B) → Result E B
ok a >>= f = f a
err e >>= f = err e

abbrev pub ◌>>◌ {ℓ κ} : {E : Type ℓ} {B : Type κ} → Result E (Unit {0}) → Result E B → Result E B
m >> k = m >>= λ _. k

-- `if b: raise e`
abbrev pub raise_if {ℓ} : {E : Type ℓ} → Bool → E → Result E (Unit {0})
raise_if true e = err e
raise_if false e = ok tt

-- `[f(x) for x in xs]` where `f` may raise
abbrev pub traverse {ℓ κ μ} :
    {E : Type ℓ} {A : Type κ} {B : Type μ} → (A → Result E B) → List A → Result E (List B)
traverse f [] = ok []
traverse f (x ∷ xs) = f x >>= λ b. traverse f xs >>= λ bs. ok (b ∷ bs)

-- What a chain that did not raise gives: the value of its first step, and the rest of the chain.
pub >>=-eq-ok {ℓ κ μ} :
    {E : Type ℓ} {A : Type κ} {B : Type μ} (first : Result E A) (rest : A → Result E B) {last : B}
    → (first >>= rest) ≡ ok last
    → (value : A) × (first ≡ ok value) × (rest value ≡ ok last)
>>=-eq-ok (ok value) rest whole = (value, refl, whole)
>>=-eq-ok (err raised) rest whole = cc

pub ok-injective {ℓ κ} :
    {E : Type ℓ} {A : Type κ} {a b : A} → ◌≡◌ {A = Result E A} (ok a) (ok b) → a ≡ b
ok-injective h = cc

abbrev pub is_ok {ℓ} : {E A : Type ℓ} → Result E A → Bool
is_ok (ok _) = true
is_ok (err _) = false

pub is_ok-eq {ℓ} : {E A : Type ℓ} (r : Result E A) → is_ok r ≡ true → (a : A) × (r ≡ ok a)
is_ok-eq (ok a) h = (a, refl)
is_ok-eq (err e) h = cc

pub some-injective {ℓ} : {A : Type ℓ} {a b : A} → ◌≡◌ {A = Option A} (some a) (some b) → a ≡ b
some-injective h = cc

-- Each value of a traversal is the one of its item.
pub data Gives {E A B : Type 0} (f : A → Result E B) : List A → List B → Type 0 where
  gives_nil : Gives f [] []
  gives_cons :
      {x : A} {y : B} {xs : List A} {ys : List B}
      → f x ≡ ok y
      → Gives f xs ys
      → Gives f (x ∷ xs) (y ∷ ys)

Gives-nil :
    {E A B : Type 0} (f : A → Result E B) (ys : List B)
    → ◌≡◌ {A = Result E (List B)} (ok []) (ok ys)
    → Gives f [] ys
Gives-nil f [] h = gives_nil
Gives-nil f (y ∷ ys) h = cc

Gives-cons :
    {E A B : Type 0} (f : A → Result E B) (x : A) (xs : List A) (y : B) (rest ys : List B)
    → f x ≡ ok y
    → Gives f xs rest
    → ◌≡◌ {A = Result E (List B)} (ok (y ∷ rest)) (ok ys)
    → Gives f (x ∷ xs) ys
Gives-cons f x xs y rest ys e g h = subst (Gives f (x ∷ xs)) (ok-injective h) (gives_cons e g)

pub traverse-Gives :
    {E A B : Type 0} (f : A → Result E B) (xs : List A) (ys : List B)
    → traverse f xs ≡ ok ys
    → Gives f xs ys
traverse-Gives f [] ys h = Gives-nil f ys h
traverse-Gives f (x ∷ xs) ys h =
    let (y, e, h1) = >>=-eq-ok (f x) _ h in
    let (rest, e', h2) = >>=-eq-ok (traverse f xs) _ h1 in
    Gives-cons f x xs y rest ys e (traverse-Gives f xs rest e') h2

-- A guard that did not raise.
pub raise_if-ok :
    {E : Type 0} (b : Bool) (e : E) {done : Unit {0}} → raise_if b e ≡ ok done → b ≡ false
raise_if-ok true e h = cc
raise_if-ok false e h = refl
