-- ===== src/Database/Effect.antt =====
-- A request handler: errors thrown, the tables, and transactions (db.ts, lib/http.ts).
use authometry.Common.{ℕ, ◌+◌, String, Bool, Option, none, some, if◌then◌else◌}
use authometry.Database.Rows.{Uuid}
use authometry.Database.Store.{Tables}

-- `ApiError` of lib/http.ts; no caller here gives `details`.
pub record ApiError : Type 0 where
  pub status : ℕ
  pub code : String
  pub message : String

abbrev pub api_error : ℕ → String → String → ApiError
api_error status code message = record { status = status; code = code; message = message }

pub data Outcome (A : Type 0) : Type 0 where
  ok : A → Outcome A
  fail : ApiError → Outcome A  -- an `ApiError` was thrown
  crash : String → Outcome A  -- another error was thrown

-- Whom the trace of the request names: `identifyUser` and `identifyAdmin` of lib/trace.ts.
pub record TraceSubject : Type 0 where
  pub id : Uuid
  pub email : String
  pub name : String
  pub is_identity_user : Bool

-- `committed` is what every other connection reads, `draft` what the open transaction reads.
-- `draws` counts the random values used, which no rollback gives back.
pub record World : Type 0 where
  pub committed : Tables
  pub draft : Tables
  pub draws : ℕ
  pub subject : Option TraceSubject

abbrev pub M : Type 0 → Type 0
M A = World → Outcome A × World

module _ {A : Type 0} where
  abbrev pub pure : A → M A
  pure a w = (ok a, w)

  abbrev pub throw : ApiError → M A
  throw e w = (fail e, w)

  abbrev pub panic : String → M A
  panic e w = (crash e, w)

  -- `if (!row) throw e`.
  abbrev pub or_throw : Option A → ApiError → M A
  or_throw none e = throw e
  or_throw (some a) e = pure a

infixl 5 ◌>>=◌ ◌>>◌
-- Shut, so that the rules for it find the parts of an action.
unfoldable pub ◌>>=◌ : {A B : Type 0} → M A → (A → M B) → M B
◌>>=◌ m f w =
    let (r, w') = m w in elim r [ ok a ↦ f a w' | fail e ↦ (fail e, w') | crash e ↦ (crash e, w') ]

abbrev pub ◌>>◌ : {A B : Type 0} → M A → M B → M B
m >> k = m >>= λ _. k

abbrev pub throw_if : Bool → ApiError → M (Unit {0})
throw_if b e w = (if b then fail e else ok tt, w)

-- `transaction` of db.ts: COMMIT on a result, ROLLBACK on any error, which is thrown again.
unfoldable pub transaction : {A : Type 0} → M A → M A
transaction work w =
    let (r, w') = work (record w { draft = w.committed }) in
    elim r [
      | ok a ↦ (ok a, record w' { committed = w'.draft })
      | fail e ↦ (fail e, record w' { draft = w'.committed })
      | crash e ↦ (crash e, record w' { draft = w'.committed })
    ]

-- `client.query` in a transaction, reading and writing.
abbrev pub client_read : {A : Type 0} → (Tables → A) → M A
client_read f w = (ok (f w.draft), w)

abbrev pub client_write : (Tables → Tables) → M (Unit {0})
client_write f w = (ok tt, record w { draft = f w.draft })

-- `query` of db.ts, on another connection: its writes are committed at once, and a transaction
-- that is open sees them and does not take them back.
abbrev pub pool_read : {A : Type 0} → (Tables → A) → M A
pool_read f w = (ok (f w.committed), w)

abbrev pub pool_write : (Tables → Tables) → M (Unit {0})
pool_write f w = (ok tt, record w { committed = f w.committed; draft = f w.draft })

-- One more random value was used: its number.
abbrev pub draw : M ℕ
draw w = (ok w.draws, record w { draws = w.draws + 1 })

abbrev pub identify : TraceSubject → M (Unit {0})
identify s w = (ok tt, record w { subject = some s })

-- `try … catch` of an `ApiError`; another error is thrown again.
unfoldable pub rescue : {A : Type 0} → M A → (ApiError → M A) → M A
rescue m f w =
    let (r, w') = m w in elim r [ ok a ↦ (ok a, w') | fail e ↦ f e w' | crash e ↦ (crash e, w') ]

-- `try … catch` of any error.
unfoldable pub recover : {A : Type 0} → M A → M A → M A
recover m n w = let (r, w') = m w in elim r [ ok a ↦ (ok a, w') | fail e ↦ n w' | crash e ↦ n w' ]

abbrev pub panic_if : Bool → String → M (Unit {0})
panic_if b e w = (if b then crash e else ok tt, w)
