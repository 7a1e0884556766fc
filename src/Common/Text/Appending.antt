-- ===== src/Common/Text/Appending.antt =====
-- The string methods on two texts put together.
use Prim.Native.Char.{code}
use Prim.Native.String.{String, [], ◌∷◌}
use Prim.Native.Nat.{ℕ, ◌+◌}
use mathlib.Core.Path.{◌≡◌, ap, ◌∙◌, sym}
use mathlib.Core.Bool.{Bool, true, false, ◌&&◌}
use native.Mathlib.Omega.{arith}
use text.Mathlib.TextLemmas.{cons-append, nil-append}
use authometry.Common.Tests.{if◌then◌else◌}
use authometry.Common.Text.{◌+s◌, units, text_length, every_code, keep_codes}

pub text_length-append : (s t : String) → text_length (s +s t) ≡ text_length s + text_length t
text_length-append [] t = ap text_length (nil-append t) ∙ omega arith
text_length-append (c ∷ s) t =
    ap text_length (cons-append c s t)
    ∙ ap (λ n. units c + n) (text_length-append s t)
    ∙ shift (units c) (text_length s) _
  where
    shift : (k m n : ℕ) → k + (m + n) ≡ (k + m) + n
    shift k m n = omega arith

module _ (p : ℕ → Bool) where
  pub every_code-append :
      (s t : String) → every_code p s ≡ true → every_code p t ≡ true → every_code p (s +s t) ≡ true
  unfolding every_code
  every_code-append [] t h k = ap (every_code p) (nil-append t) ∙ k
  every_code-append (c ∷ s) t h k =
      ap (every_code p) (cons-append c s t)
      ∙ both (p (code c)) (every_code p s) _ h (λ rest. every_code-append s t rest k)
    where
      both : (b x y : Bool) → b && x ≡ true → (x ≡ true → y ≡ true) → b && y ≡ true
      both true x y h f = f h
      both false x y h f = absurd (cc)

  pub keep_codes-append : (s t : String) → keep_codes p (s +s t) ≡ keep_codes p s +s keep_codes p t
  unfolding keep_codes
  keep_codes-append [] t = ap (keep_codes p) (nil-append t) ∙ sym (nil-append (keep_codes p t))
  keep_codes-append (c ∷ s) t =
      ap (keep_codes p) (cons-append c s t) ∙ put (p (code c)) _ _ (keep_codes-append s t)
    where
      put :
          (b : Bool) (x rest : String)
          → rest ≡ x +s keep_codes p t
          → (if b then c ∷ rest else rest) ≡ (if b then c ∷ x else x) +s keep_codes p t
      put true x rest h = ap (λ u. c ∷ u) h ∙ sym (cons-append c x (keep_codes p t))
      put false x rest h = h
