-- ===== src/Prelude/Printf.antt =====
-- Output through `gzprintf` and `fprintf`. A call is its format, as the source spells it, and its
-- arguments; what the library does with them is a parameter of the components that write.
use Prim.Native.Nat.{ℕ}
use Prim.Native.String.{String}
use mathlib.Core.List.{List, [], ◌∷◌, ◌++◌}
use mathlib.Core.Option.{Option, none, some}
use mathlib.Core.Path.{◌≡◌, refl, sym, ap, ◌∙◌, fun_ext}
use bismark_passive.Prelude.Int.{ℤ}

-- An argument: a signed number, an unsigned number, or the characters of a string.
pub data Arg : Type 0 where
  int : ℤ → Arg
  uint : ℕ → Arg
  str : List ℕ → Arg

pub record Call : Type 0 where
  pub format : String
  pub args : List Arg

abbrev pub blank_line : Call
blank_line = record { format = "\n"; args = [] }

-- `none` is the error return; a handle that failed is not used again.
abbrev pub Printf : Type 0 → Type 0
Printf H = H → Call → Option H

infixl 5 ◌>>=◌
abbrev pub ◌>>=◌ {ℓ κ} : {A : Type ℓ} {B : Type κ} → Option A → (A → Option B) → Option B
none >>= f = none
some a >>= f = f a

-- A result beside the handle.
abbrev pub with_handle {ℓ κ} : {A : Type ℓ} {H : Type κ} → A → H → Option (A × H)
with_handle a h = some (a, h)

pub >>=_assoc {ℓ} :
    {A B C : Type ℓ} (o : Option A) (f : A → Option B) (g : B → Option C)
    → (o >>= f >>= g) ≡ (o >>= λ a. f a >>= g)
>>=_assoc none f g = refl
>>=_assoc (some a) f g = refl

pub >>=_some {ℓ} : {A : Type ℓ} (o : Option A) → (o >>= λ a. some a) ≡ o
>>=_some none = refl
>>=_some (some a) = refl

-- The calls in order, up to the first that fails.
abbrev pub put_all : {H : Type 0} → Printf H → H → List Call → Option H
put_all p h [] = some h
put_all p h (c ∷ cs) = p h c >>= λ h'. put_all p h' cs

pub put_all-append :
    {H : Type 0} (p : Printf H) (h : H) (cs ds : List Call)
    → put_all p h (cs ++ ds) ≡ (put_all p h cs >>= λ h'. put_all p h' ds)
put_all-append p h [] ds = refl
put_all-append p h (c ∷ cs) ds =
    ap (λ f. p h c >>= f) (fun_ext λ h'. put_all-append p h' cs ds) ∙ sym (>>=_assoc (p h c) _ _)

-- A handle that records the calls, none of which fails.
abbrev pub record_call : Printf (List Call)
record_call h c = some (h ++ c ∷ [])

-- A step that makes some calls, in front of one that makes others.
module _ {H B : Type 0} (p : Printf H) (finish : H → Option B) where
  pub step :
      (f : H → Option H) (k : H → Option B) (ls ms : List Call)
      → ((h : H) → f h ≡ put_all p h ls)
      → ((h : H) → k h ≡ (put_all p h ms >>= finish))
      → (h : H) → (f h >>= k) ≡ (put_all p h (ls ++ ms) >>= finish)
  step f k ls ms first later h =
      rw (first h, put_all-append p h ls ms)
        (ap (λ g. put_all p h ls >>= g) (fun_ext later) ∙ sym (>>=_assoc (put_all p h ls) _ _))

  pub step_with :
      {S : Type 0} (f : H → Option (S × H)) (s : S) (k : S × H → Option B) (ls ms : List Call)
      → ((h : H) → f h ≡ (put_all p h ls >>= with_handle s))
      → ((h : H) → k (s, h) ≡ (put_all p h ms >>= finish))
      → (h : H) → (f h >>= k) ≡ (put_all p h (ls ++ ms) >>= finish)
  step_with f s k ls ms first later h =
      rw (first h, put_all-append p h ls ms)
        (>>=_assoc (put_all p h ls) _ _
          ∙ ap (λ g. put_all p h ls >>= g) (fun_ext later)
          ∙ sym (>>=_assoc (put_all p h ls) _ _))
