-- ===== src/Database/Steadiness.antt =====
-- Actions that may throw and leave a view of the tables as it was, such as one table, with a
-- postcondition, and the rules for them.
use mathlib.Core.Path.{subst}
use authometry.Common.{
  String, if◌then◌else◌, ap, ◌≡◌, refl, ◌∙◌, Option, none, some, Bool, true, false,
}
use authometry.Database.Store.{Tables}
use authometry.Database.Effect.{
  ApiError, Outcome, ok, fail, crash, TraceSubject, World, M, ◌>>=◌, pure, throw, or_throw,
  throw_if, client_read, client_write, panic, pool_read, pool_write, identify, rescue,
}
use authometry.Database.Quietness.{Quiet, Any, ok-injective}

pub record Stays {X A : Type 0} (view : Tables → X) (P : A → Type 0) (w : World)
    (p : Outcome A × World) : Type 0 where
  pub committed : view p.1.committed ≡ view w.committed
  pub draft : view p.1.draft ≡ view w.draft
  pub result : (a : A) → p.0 ≡ ok a → P a

pub record Steady {X A : Type 0} (view : Tables → X) (P : A → Type 0) (m : M A) : Type 0 where
  pub stays : (w : World) → Stays view P w (m w)

-- Every table.
abbrev pub all_tables : Tables → Tables
all_tables t = t

module _ {X : Type 0} (view : Tables → X) where
  module _ {A : Type 0} (P : A → Type 0) where
    pub Quiet-Steady : {m : M A} → Quiet P m → Steady view P m
    Quiet-Steady q = record {
      stays = λ w.
          let k = q.keeps w in
          record { committed = ap view k.committed; draft = ap view k.draft; result = k.result };
    }

    pub weaken-Steady :
        (Q : A → Type 0) {m : M A} → ((a : A) → Q a → P a) → Steady view Q m → Steady view P m
    weaken-Steady Q f s = record {
      stays = λ w.
          let k = s.stays w in
          record { committed = k.committed; draft = k.draft; result = λ a h. f a (k.result a h) };
    }

    pub pure-Steady : (a : A) → P a → Steady view P (pure a)
    pure-Steady a p = record {
      stays = λ w. record {
        committed = refl;
        draft = refl;
        result = λ b h. subst P (ok-injective a b h) p;
      };
    }

    pub throw-Steady : (e : ApiError) → Steady view P (throw {A = A} e)
    throw-Steady e = record {
      stays = λ w. record { committed = refl; draft = refl; result = λ b h. cc };
    }

    pub panic-Steady : (e : String) → Steady view P (panic {A = A} e)
    panic-Steady e = record {
      stays = λ w. record { committed = refl; draft = refl; result = λ b h. cc };
    }

    pub or_throw-Steady :
        (o : Option A) (e : ApiError) → ((a : A) → o ≡ some a → P a) → Steady view P (or_throw o e)
    or_throw-Steady none e p = throw-Steady e
    or_throw-Steady (some a) e p = pure-Steady a (p a refl)

    pub client_read-Steady :
        (f : Tables → A) → ((t : Tables) → P (f t)) → Steady view P (client_read f)
    client_read-Steady f p = record { stays = λ w. (pure-Steady (f w.draft) (p w.draft)).stays w }

    pub pool_read-Steady : (f : Tables → A) → ((t : Tables) → P (f t)) → Steady view P (pool_read f)
    pool_read-Steady f p = record {
      stays = λ w. (pure-Steady (f w.committed) (p w.committed)).stays w;
    }

    pub if-Steady :
        (b : Bool) (m n : M A)
        → Steady view P m
        → Steady view P n
        → Steady view P (if b then m else n)
    if-Steady true m n p q = p
    if-Steady false m n p q = q

  pub pool_write-Steady :
      (f : Tables → Tables) → ((t : Tables) → view (f t) ≡ view t) → Steady view Any (pool_write f)
  pool_write-Steady f h = record {
    stays = λ w. record { committed = h w.committed; draft = h w.draft; result = λ b e. tt };
  }

  pub client_write-Steady :
      (f : Tables → Tables)
      → ((t : Tables) → view (f t) ≡ view t)
      → Steady view Any (client_write f)
  client_write-Steady f h = record {
    stays = λ w. record { committed = refl; draft = h w.draft; result = λ b e. tt };
  }

  pub throw_if-Steady : (b : Bool) (e : ApiError) → Steady view (λ _. b ≡ false) (throw_if b e)
  throw_if-Steady true e = record {
    stays = λ w. record { committed = refl; draft = refl; result = λ b h. absurd (cc) };
  }
  throw_if-Steady false e = record {
    stays = λ w. record { committed = refl; draft = refl; result = λ b h. refl };
  }

  pub identify-Steady : (s : TraceSubject) → Steady view Any (identify s)
  identify-Steady s = record {
    stays = λ w. record { committed = refl; draft = refl; result = λ b h. tt };
  }

  module _ {A B : Type 0} (Q : A → Type 0) (P : B → Type 0) where
    bind-Stays :
        (w : World) (f : A → M B) (o : Outcome A) (w' : World)
        → Stays view Q w (o, w')
        → ((a : A) → Q a → Steady view P (f a))
        → Stays view P w
            (elim o [ ok a ↦ f a w' | fail e ↦ (fail e, w') | crash e ↦ (crash e, w') ])
    bind-Stays w f (ok a) w' k q =
        let next = (q a (k.result a refl)).stays w' in
        record {
          committed = next.committed ∙ k.committed;
          draft = next.draft ∙ k.draft;
          result = next.result;
        }
    bind-Stays w f (fail e) w' k q = record {
      committed = k.committed;
      draft = k.draft;
      result = λ b h. cc;
    }
    bind-Stays w f (crash e) w' k q = record {
      committed = k.committed;
      draft = k.draft;
      result = λ b h. cc;
    }

    pub >>=-Steady :
        (m : M A) (f : A → M B)
        → Steady view Q m
        → ((a : A) → Q a → Steady view P (f a))
        → Steady view P (m >>= f)
    unfolding ◌>>=◌
    >>=-Steady m f p q = record { stays = λ w. bind-Stays w f (m w).0 (m w).1 (p.stays w) q }

  module _ {A : Type 0} (P : A → Type 0) where
    rescue-Stays :
        (w : World) (f : ApiError → M A) (o : Outcome A) (w' : World)
        → Stays view P w (o, w')
        → ((e : ApiError) → Steady view P (f e))
        → Stays view P w (elim o [ ok a ↦ (ok a, w') | fail e ↦ f e w' | crash e ↦ (crash e, w') ])
    rescue-Stays w f (ok a) w' k q = k
    rescue-Stays w f (fail e) w' k q =
        let next = (q e).stays w' in
        record {
          committed = next.committed ∙ k.committed;
          draft = next.draft ∙ k.draft;
          result = next.result;
        }
    rescue-Stays w f (crash e) w' k q = k

    pub rescue-Steady :
        (m : M A) (f : ApiError → M A)
        → Steady view P m
        → ((e : ApiError) → Steady view P (f e))
        → Steady view P (rescue m f)
    unfolding rescue
    rescue-Steady m f p q = record { stays = λ w. rescue-Stays w f (m w).0 (m w).1 (p.stays w) q }
