-- ===== src/Database/Inversion.antt =====
-- What a successful action has gone through, step by step.
use authometry.Common.{String, ◌≡◌, refl, ap, Bool, true, false, Option, none, some}
use authometry.Database.Effect.{
  ApiError, Outcome, ok, fail, crash, World, M, ◌>>=◌, throw_if, transaction,
}
use authometry.Database.Store.{Tables}
use authometry.Database.Effect.{or_throw, pool_read, panic_if}

module _ {A B : Type 0} where
  bind_inv :
      (f : A → M B) (o : Outcome A) (w' : World) (b : B)
      → (elim o as (λ o'. Outcome B × World) [
        | ok a ↦ f a w'
        | fail e ↦ (fail e, w')
        | crash e ↦ (crash e, w')
      ]).0
        ≡ ok b
      → (a : A) × (o ≡ ok a)
        × ((f a w').0 ≡ ok b)
        × ((elim o as (λ o'. Outcome B × World) [
          | ok a' ↦ f a' w'
          | fail e ↦ (fail e, w')
          | crash e ↦ (crash e, w')
        ]).1
            ≡ (f a w').1)
  bind_inv f (ok a) w' b h = (a, refl, h, refl)
  bind_inv f (fail e) w' b h = absurd (cc)
  bind_inv f (crash e) w' b h = absurd (cc)

  -- A chain that returns has returned at its first step, and at the rest from there.
  pub >>=-ok :
      (m : M A) (f : A → M B) (w : World) (b : B)
      → ((m >>= f) w).0 ≡ ok b
      → (a : A) × ((m w).0 ≡ ok a) × ((f a (m w).1).0 ≡ ok b) × (((m >>= f) w).1 ≡ (f a (m w).1).1)
  unfolding ◌>>=◌
  >>=-ok m f w b h = bind_inv f (m w).0 (m w).1 b h

-- A guard that was passed.
pub throw_if-ok :
    (c : Bool) (e : ApiError) (w : World) (u : Unit {0}) → (throw_if c e w).0 ≡ ok u → c ≡ false
throw_if-ok true e w u h = absurd (cc)
throw_if-ok false e w u h = refl

-- A transaction that returns has returned from its work, and what that wrote is committed.
pub transaction-ok :
    {A : Type 0} (m : M A) (w : World) (a : A)
    → (transaction m w).0 ≡ ok a
    → let (o, w') = m (record w { draft = w.committed }) in
      (o ≡ ok a) × ((transaction m w).1.committed ≡ w'.draft)
unfolding transaction
transaction-ok {A} m w a h =
    inv (m (record w { draft = w.committed })).0 (m (record w { draft = w.committed })).1 h
  where
    inv :
        (o : Outcome A) (w' : World)
        → let p = elim o as (λ o'. Outcome A × World) [
          | ok b ↦ (ok b, record w' { committed = w'.draft })
          | fail e ↦ (fail e, record w' { draft = w'.committed })
          | crash e ↦ (crash e, record w' { draft = w'.committed })
        ] in
          p.0 ≡ ok a → (o ≡ ok a) × (p.1.committed ≡ w'.draft)
    inv (ok b) w' h = (h, refl)
    inv (fail e) w' h = absurd (cc)
    inv (crash e) w' h = absurd (cc)

-- An action under a guard that returns has passed the guard.
pub guarded-ok :
    {A : Type 0} (c : Bool) (e : ApiError) (m : M A) (w : World) (a : A)
    → ((throw_if c e >>= λ _. m) w).0 ≡ ok a
    → (c ≡ false) × ((m w).0 ≡ ok a)
unfolding ◌>>=◌
guarded-ok true e m w a h = absurd (cc)
guarded-ok false e m w a h = (refl, h)

module _ {A B : Type 0} (f : A → M B) (w : World) (b : B) where
  -- An action on a required value that returns has found the value.
  pub required-ok :
      (o : Option A) (e : ApiError)
      → ((or_throw o e >>= f) w).0 ≡ ok b
      → (a : A) × (o ≡ some a) × ((f a w).0 ≡ ok b)
  unfolding ◌>>=◌
  required-ok none e h = absurd (cc)
  required-ok (some a) e h = (a, refl, h)

  pub read-ok : (g : Tables → A) → ((pool_read g >>= f) w).0 ≡ ok b → (f (g w.committed) w).0 ≡ ok b
  unfolding ◌>>=◌
  read-ok g h = h

  pub read_step : (g : Tables → A) → ((pool_read g >>= f) w) ≡ f (g w.committed) w
  unfolding ◌>>=◌
  read_step g = refl

-- A check that was passed.
pub checked-ok :
    {A : Type 0} (c : Bool) (e : String) (m : M A) (w : World) (a : A)
    → ((panic_if c e >>= λ _. m) w).0 ≡ ok a
    → (c ≡ false) × ((m w).0 ≡ ok a)
unfolding ◌>>=◌
checked-ok true e m w a h = absurd (cc)
checked-ok false e m w a h = (refl, h)

-- A chain whose first step is refused is refused.
pub >>=-fail :
    {A B : Type 0} (m : M A) (f : A → M B) (w w' : World) (e : ApiError)
    → m w ≡ (fail e, w')
    → (m >>= f) w ≡ (fail e, w')
unfolding ◌>>=◌
>>=-fail {A} {B} m f w w' e h =
    ap
      (λ (p : Outcome A × World). elim p.0 as (λ o. Outcome B × World) [
        | ok a ↦ f a p.1
        | fail e' ↦ (fail e', p.1)
        | crash e' ↦ (crash e', p.1)
      ])
      h

-- What an action does after a guard that passes, or a value that is there.
module _ {A B : Type 0} (f : A → M B) (e : ApiError) (w : World) where
  pub required_step : (o : Option A) (a : A) → o ≡ some a → (or_throw o e >>= f) w ≡ f a w
  unfolding ◌>>=◌
  required_step o a h = ap (λ x. (or_throw x e >>= f) w) h

pub guarded_step :
    {A : Type 0} (c : Bool) (e : ApiError) (m : M A) (w : World)
    → c ≡ false
    → (throw_if c e >>= λ _. m) w ≡ m w
unfolding ◌>>=◌
guarded_step c e m w h = ap (λ b. (throw_if b e >>= λ _. m) w) h
