-- ===== src/Prelude/All.antt =====
-- A property of all elements of a list, and of the result of a chain.
use Prim.Native.Nat.{ℕ, zero, suc}
use mathlib.Core.Path.{◌≡◌, subst}
use mathlib.Core.List.{List, [], ◌∷◌, ◌++◌}
use mathlib.Core.Option.{Option, none, some}
use bismark_passive.Prelude.Lists.{take}
use bismark_passive.Prelude.Printf.{◌>>=◌, with_handle}

abbrev pub All {ℓ} : {A : Type ℓ} → (A → Type ℓ) → List A → Type ℓ
All P [] = Unit
All P (x ∷ xs) = P x × All P xs

module _ {ℓ} {A : Type ℓ} where
  pub All-take : (P : A → Type ℓ) (n : ℕ) (xs : List A) → All P xs → All P (take n xs)
  All-take P zero xs h = tt
  All-take P (suc n) [] h = tt
  All-take P (suc n) (x ∷ xs) (hx, hxs) = (hx, All-take P n xs hxs)

  pub All-append : (P : A → Type ℓ) (xs ys : List A) → All P xs → All P ys → All P (xs ++ ys)
  All-append P [] ys _ h = h
  All-append P (x ∷ xs) ys (hx, hxs) h = (hx, All-append P xs ys hxs h)

  pub All-weaken : (P Q : A → Type ℓ) (xs : List A) → ((x : A) → P x → Q x) → All P xs → All Q xs
  All-weaken P Q [] w h = tt
  All-weaken P Q (x ∷ xs) w (hx, hxs) = (w x hx, All-weaken P Q xs w hxs)

-- What holds of a result, if there is one.
abbrev pub OnSuccess {ℓ} : {A : Type ℓ} → (A → Type ℓ) → Option A → Type ℓ
OnSuccess P none = Unit
OnSuccess P (some a) = P a

pub with_handle-OnSuccess :
    {T H : Type 0} (P : T → Type 0) (x : T) (o : Option H)
    → P x
    → OnSuccess (λ r. P r.0) (o >>= with_handle x)
with_handle-OnSuccess P x none px = tt
with_handle-OnSuccess P x (some h) px = px

-- It is enough to look at the steps that succeed.
pub >>=-OnSuccess {ℓ} :
    {A B : Type ℓ} (P : A → Type ℓ) (Q : B → Type ℓ) (o : Option A) (f : A → Option B)
    → OnSuccess P o
    → ((a : A) → P a → OnSuccess Q (f a))
    → OnSuccess Q (o >>= f)
>>=-OnSuccess P Q none f h later = tt
>>=-OnSuccess P Q (some a) f h later = later a h

anything {ℓ} : {A : Type ℓ} (o : Option A) → OnSuccess (λ _. Unit) o
anything none = tt
anything (some a) = tt

-- A step of which nothing is needed.
pub after {ℓ} :
    {A B : Type ℓ} (Q : B → Type ℓ) (o : Option A) (f : A → Option B)
    → ((a : A) → OnSuccess Q (f a))
    → OnSuccess Q (o >>= f)
after Q o f later = >>=-OnSuccess (λ _. Unit) Q o f (anything o) λ a _. later a

pub OnSuccess-some {ℓ} :
    {A : Type ℓ} (P : A → Type ℓ) (o : Option A) (a : A) → OnSuccess P o → o ≡ some a → P a
OnSuccess-some P none a h e = cc
OnSuccess-some P (some b) a h e = let same : b ≡ a = cc in subst P same h

pub OnSuccess-weaken {ℓ} :
    {A : Type ℓ} (P Q : A → Type ℓ) (o : Option A)
    → ((a : A) → P a → Q a)
    → OnSuccess P o
    → OnSuccess Q o
OnSuccess-weaken P Q none w h = tt
OnSuccess-weaken P Q (some a) w h = w a h
