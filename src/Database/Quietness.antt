-- ===== src/Database/Quietness.antt =====
-- Actions that throw no `ApiError` and leave every table as it was, with a postcondition on what
-- they return, and the rules for them.
use mathlib.Core.Path.{subst}
use authometry.Common.{◌≡◌, refl, ap, ◌∙◌, ◌≢◌, Bool, true, false, String, if◌then◌else◌}
use authometry.Database.Store.{Tables}
use authometry.Database.Effect.{
  ApiError, Outcome, ok, fail, crash, World, M, ◌>>=◌, pure, panic, pool_read, draw,
}

pub record Keeps {A : Type 0} (P : A → Type 0) (w : World) (p : Outcome A × World) : Type 0 where
  pub committed : p.1.committed ≡ w.committed
  pub draft : p.1.draft ≡ w.draft
  pub subject : p.1.subject ≡ w.subject
  pub no_fail : (e : ApiError) → p.0 ≢ fail e
  pub result : (a : A) → p.0 ≡ ok a → P a

pub record Quiet {A : Type 0} (P : A → Type 0) (m : M A) : Type 0 where
  pub keeps : (w : World) → Keeps P w (m w)

-- No postcondition.
abbrev pub Any : {A : Type 0} → A → Type 0
Any a = Unit

abbrev pub value_or : {A : Type 0} → A → Outcome A → A
value_or b (ok a) = a
value_or b (fail e) = b
value_or b (crash e) = b

pub ok-injective : {A : Type 0} (a b : A) → ok a ≡ ok b → a ≡ b
ok-injective a b h = ap (value_or a) h

module _ {A : Type 0} (P : A → Type 0) where
  pub pure-Quiet : (a : A) → P a → Quiet P (pure a)
  pure-Quiet a p = record {
    keeps = λ w. record {
      committed = refl;
      draft = refl;
      subject = refl;
      no_fail = λ e. cc;
      result = λ b h. subst P (ok-injective a b h) p;
    };
  }

  pub panic-Quiet : (e : String) → Quiet P (panic {A = A} e)
  panic-Quiet e = record {
    keeps = λ w. record {
      committed = refl;
      draft = refl;
      subject = refl;
      no_fail = λ e'. cc;
      result = λ b h. cc;
    };
  }

  pub if-Quiet : (b : Bool) (m n : M A) → Quiet P m → Quiet P n → Quiet P (if b then m else n)
  if-Quiet true m n p q = p
  if-Quiet false m n p q = q

  pub pool_read-Quiet : (f : Tables → A) → ((t : Tables) → P (f t)) → Quiet P (pool_read f)
  pool_read-Quiet f p = record { keeps = λ w. (pure-Quiet (f w.committed) (p w.committed)).keeps w }

pub draw-Quiet : Quiet Any draw
draw-Quiet = record {
  keeps = λ w. record {
    committed = refl;
    draft = refl;
    subject = refl;
    no_fail = λ e. cc;
    result = λ b h. tt;
  };
}

module _ {A B : Type 0} (Q : A → Type 0) (P : B → Type 0) where
  bind-Keeps :
      (w : World) (f : A → M B) (o : Outcome A) (w' : World)
      → Keeps Q w (o, w')
      → ((a : A) → Q a → Quiet P (f a))
      → Keeps P w (elim o [ ok a ↦ f a w' | fail e ↦ (fail e, w') | crash e ↦ (crash e, w') ])
  bind-Keeps w f (ok a) w' k q =
      let next = (q a (k.result a refl)).keeps w' in
      record {
        committed = next.committed ∙ k.committed;
        draft = next.draft ∙ k.draft;
        subject = next.subject ∙ k.subject;
        no_fail = next.no_fail;
        result = next.result;
      }
  bind-Keeps w f (fail e) w' k q = absurd (k.no_fail e refl)
  bind-Keeps w f (crash e) w' k q = record {
    committed = k.committed;
    draft = k.draft;
    subject = k.subject;
    no_fail = λ e'. cc;
    result = λ b h. cc;
  }

  pub >>=-Quiet :
      (m : M A) (f : A → M B) → Quiet Q m → ((a : A) → Q a → Quiet P (f a)) → Quiet P (m >>= f)
  unfolding ◌>>=◌
  >>=-Quiet m f p q = record { keeps = λ w. bind-Keeps w f (m w).0 (m w).1 (p.keeps w) q }
