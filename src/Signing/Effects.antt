-- ===== src/Signing/Effects.antt =====
-- Random values and the verification of access tokens write nothing.
use authometry.Common.{ℕ, ◌≡◌, ap, refl, String, Option, none, some}
use authometry.Database.{
  M, World, ok, ◌>>=◌, Tables, Runtime, Any, Steady, pure-Steady, panic-Steady, pool_read-Steady,
  >>=-Steady, Quiet-Steady, draw-Quiet,
}
use authometry.Signing.{or_panic, random_token, random_id, verify_oauth_jwt}

module _ (r : Runtime) {X : Type 0} (view : Tables → X) where
  pub or_panic-Steady : {A : Type 0} (o : Option A) (e : String) → Steady view Any (or_panic r o e)
  or_panic-Steady none e = panic-Steady view Any e
  or_panic-Steady (some a) e = pure-Steady view Any a tt

  pub random_token-Steady : (bytes : ℕ) → Steady view Any (random_token r bytes)
  unfolding random_token
  random_token-Steady bytes =
      >>=-Steady view Any Any _ _ (Quiet-Steady view Any draw-Quiet)
        λ n _. pure-Steady view Any _ tt

  pub random_id-Steady : (prefix : String) (bytes : ℕ) → Steady view Any (random_id r prefix bytes)
  unfolding random_id
  random_id-Steady prefix bytes =
      >>=-Steady view Any Any _ _ (Quiet-Steady view Any draw-Quiet)
        λ n _. pure-Steady view Any _ tt

  pub verify_oauth_jwt-Steady :
      (token : String) (issuer : Option String) → Steady view Any (verify_oauth_jwt r token issuer)
  unfolding verify_oauth_jwt
  verify_oauth_jwt-Steady token issuer =
      >>=-Steady view Any Any _ _ (or_panic-Steady _ _) λ header _.
        >>=-Steady view Any Any _ _ (or_panic-Steady header _) λ kid _.
          >>=-Steady view Any Any _ _ (pool_read-Steady view Any _ (λ t. tt)) λ found _.
            >>=-Steady view Any Any _ _ (or_panic-Steady found _) λ row _. or_panic-Steady _ _

-- An action on a value that must be there, and returns, has found it.
pub needed-ok :
    {A B : Type 0} (r : Runtime) (f : A → M B) (w : World) (b : B) (o : Option A) (e : String)
    → ((or_panic r o e >>= f) w).0 ≡ ok b
    → (a : A) × (o ≡ some a) × ((f a w).0 ≡ ok b)
unfolding ◌>>=◌
needed-ok r f w b none e h = absurd (cc)
needed-ok r f w b (some a) e h = (a, refl, h)

pub needed_step :
    {A B : Type 0} (r : Runtime) (f : A → M B) (w : World) (o : Option A) (e : String) (a : A)
    → o ≡ some a
    → (or_panic r o e >>= f) w ≡ f a w
unfolding ◌>>=◌
needed_step r f w o e a h = ap (λ x. (or_panic r x e >>= f) w) h
