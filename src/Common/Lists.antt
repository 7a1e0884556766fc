-- ===== src/Common/Lists.antt =====
-- Arrays and tables as lists: the array methods that the source calls, and a table's rows.
use Prim.Native.Nat.{ℕ, suc}
use Prim.Native.String.{String}
use mathlib.Core.Path.{◌≡◌, refl, subst}
use mathlib.Core.Logic.{inl, inr}
use mathlib.Core.Bool.{Bool, true, false, ◌&&◌, ◌||◌}
use mathlib.Core.Option
use mathlib.Core.Option.{Option, none, some}
use mathlib.Core.List.{List, [], ◌∷◌, ◌++◌}
use native.Mathlib.Omega.{arith}
use authometry.Common.Tests.{if◌then◌else◌, str_eq, Bool-cases}

module _ {ℓ} {A : Type ℓ} where
  abbrev pub length : List A → ℕ
  length [] = 0
  length (x ∷ xs) = suc (length xs)

  abbrev pub every : (A → Bool) → List A → Bool
  every p [] = true
  every p (x ∷ xs) = p x && every p xs

  abbrev pub any : (A → Bool) → List A → Bool
  any p [] = false
  any p (x ∷ xs) = p x || any p xs

  abbrev pub keep : (A → Bool) → List A → List A
  keep p [] = []
  keep p (x ∷ xs) = let rest = keep p xs in if p x then x ∷ rest else rest

  -- `rows[0]` of `SELECT … WHERE p`.
  abbrev pub find : (A → Bool) → List A → Option A
  find p [] = none
  find p (x ∷ xs) = if p x then some x else find p xs

  -- `UPDATE … SET f WHERE p`.
  abbrev pub update_where : (A → Bool) → (A → A) → List A → List A
  update_where p f [] = []
  update_where p f (x ∷ xs) = (if p x then f x else x) ∷ update_where p f xs

  abbrev pub All {κ} : (A → Type κ) → List A → Type κ
  All P [] = Unit
  All P (x ∷ xs) = P x × All P xs

  -- An update that keeps the test `p` keeps the row that `p` finds, updated if `q` holds of it.
  pub find-update_where :
      (p q : A → Bool) (f : A → A)
      → ((x : A) → p (f x) ≡ p x)
      → (xs : List A)
      → find p (update_where q f xs) ≡ Option.map (λ x. if q x then f x else x) (find p xs)
  find-update_where p q f h [] = refl
  find-update_where p q f h (x ∷ xs) = ground (arith, h x, find-update_where p q f h xs)

  -- A row inserted at the end of the table hides none that was found before.
  pub find-append :
      (p : A → Bool) (xs ys : List A) (a : A) → find p xs ≡ some a → find p (xs ++ ys) ≡ some a
  find-append p [] ys a h = ground arith
  find-append p (x ∷ xs) ys a h = ground (arith, find-append p xs ys a)

  pub find_holds : (p : A → Bool) (xs : List A) (a : A) → find p xs ≡ some a → p a ≡ true
  find_holds p [] a h = ground arith
  find_holds p (x ∷ xs) a h = ground (arith, find_holds p xs a)

-- What holds of every row holds of the row that is found.
pub All-find {ℓ κ} :
    {A : Type ℓ} (P : A → Type κ) (p : A → Bool) (xs : List A) (a : A)
    → All P xs
    → find p xs ≡ some a
    → P a
All-find P p [] a h e = absurd (ground arith)
All-find {A} P p (x ∷ xs) a h e = elim (Bool-cases (p x)) [
  | inl yes_x ↦ subst P (same x a yes_x e) h.0
  | inr no_x ↦ All-find P p xs a h.1 (rw no_x at e)
]
  where
    same : (x a : A) → p x ≡ true → (if p x then some x else find p xs) ≡ some a → x ≡ a
    same x a yes_x e = ground arith

-- `xs.includes(x)` on strings.
abbrev pub includes : List String → String → Bool
includes [] s = false
includes (x ∷ xs) s = str_eq x s || includes xs s
