-- ===== src/Base/Fallible.antt =====
-- What holds of the result of a test, and of the value of an option.
use mathlib.Core.Path.{◌≡◌, refl, ap, subst}
use mathlib.Core.Bool.{Bool, true, false}
use mathlib.Core.Option.{Option, none, some}
use fluxkv.Base.Tests.{if◌then◌else◌, ◌>>=◌}

pub if_both :
    {A : Type 0} (P : A → Type 0) (t : Bool) (x y : A) → P x → P y → P (if t then x else y)
if_both P true x y px py = px
if_both P false x y px py = py

get_or_else : {A : Type 0} → A → Option A → A
get_or_else d none = d
get_or_else d (some a) = a

-- The value that there is, if there is one.
abbrev pub Each : {A : Type 0} → (A → Type 0) → Option A → Type 0
Each P none = Unit {0}
Each P (some a) = P a

pub Each-some : {A : Type 0} (P : A → Type 0) (o : Option A) (a : A) → Each P o → o ≡ some a → P a
unfolding get_or_else
Each-some P none a h e = cc
Each-some P (some x) a h e = subst P (ap (λ o. get_or_else x o) e) h

pub Each-bind :
    {A B : Type 0} (P : B → Type 0) (o : Option A) (f : A → Option B)
    → ((a : A) → o ≡ some a → Each P (f a))
    → Each P (o >>= f)
Each-bind P none f h = tt
Each-bind P (some a) f h = h a refl

pub Each-map :
    {A B : Type 0} (P : A → Type 0) (Q : B → Type 0) (o : Option A) (f : A → B)
    → Each P o
    → ((a : A) → P a → Q (f a))
    → Each Q (o >>= (λ a. some (f a)))
Each-map P Q none f h g = tt
Each-map P Q (some a) f h g = g a h
