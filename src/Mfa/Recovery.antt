-- ===== src/Mfa/Recovery.antt =====
-- Recovery codes are used up.
use authometry.Common.{
  ℕ, ◌≤◌, ◌<◌, ◌≡◌, refl, String, Bool, true, false, Option, none, some, List, [], ◌∷◌, arith, find,
  keep, length, update_where, ◌==◌,
}
use authometry.Database.{Uuid, RecoveryCodeRow, Tables, Runtime, World, ok, ◌>>=◌}
use authometry.Signing.{hash_token}
use authometry.Mfa.{unused_code, use_code, spend, use_recovery_code}

module _ {A : Type 0} (p q : A → Bool) (f : A → A) (spent : (x : A) → p (f x) ≡ false) where
  -- Updating rows to rows that fail the test leaves no more that pass it.
  keep-update_where : (xs : List A) → length (keep p (update_where q f xs)) ≤ length (keep p xs)
  keep-update_where [] = omega arith
  keep-update_where (x ∷ xs) = ground (arith, spent x, keep-update_where xs)

  -- And strictly fewer, where the row that is found is updated.
  find-update_where_less :
      (xs : List A) (a : A)
      → find p xs ≡ some a
      → q a ≡ true
      → length (keep p (update_where q f xs)) < length (keep p xs)
  find-update_where_less [] a h hit = absurd (ground arith)
  find-update_where_less (x ∷ xs) a h hit =
      ground (arith, spent x, keep-update_where xs, find-update_where_less xs a)

module _ (r : Runtime) where
  -- The codes of the user that are left with this hash.
  unfoldable pub unused : Uuid → String → Tables → ℕ
  unused user_id value t =
      length (keep (unused_code r user_id (hash_token r value)) t.recovery_codes)

  spent_lem :
      (user_id : Uuid) (hash : String) (c : RecoveryCodeRow)
      → unused_code r user_id hash (record c { used_at = some r.sql_now }) ≡ false
  unfolding unused_code
  spent_lem user_id hash c = ground arith

  spend_lem :
      (user_id : Uuid) (value : String) (w : World) (o : Option RecoveryCodeRow)
      → find (unused_code r user_id (hash_token r value)) w.committed.recovery_codes ≡ o
      → ((spend r o w).0 ≡ ok true
          → unused user_id value (spend r o w).1.committed < unused user_id value w.committed)
        × (unused user_id value w.committed ≡ 0 → spend r o w ≡ (ok false, w))
  unfolding spend unused use_code ◌>>=◌
  spend_lem user_id value w none found = (λ h. absurd (cc), λ h. refl)
  spend_lem user_id value w (some c) found =
      let p = unused_code r user_id (hash_token r value) in
      let less =
        find-update_where_less p (λ x. x.id == c.id) (λ x. record x { used_at = some r.sql_now })
          (spent_lem user_id (hash_token r value)) w.committed.recovery_codes c found (same c.id) in
      (λ h. less, λ none_left. absurd (omega (arith, less, none_left)))
    where
      same : (n : ℕ) → (n == n) ≡ true
      same n = ground arith

  -- A recovery code that is accepted leaves fewer unused codes than there were, so a code is
  -- accepted as often as it was handed out; with none left it is refused, and nothing is written.
  pub use_recovery_code-unused :
      (user_id : Uuid) (value : String) (w : World)
      → ((use_recovery_code r user_id value w).0 ≡ ok true
          → unused user_id value (use_recovery_code r user_id value w).1.committed
            < unused user_id value w.committed)
        × (unused user_id value w.committed ≡ 0
            → use_recovery_code r user_id value w ≡ (ok false, w))
  unfolding use_recovery_code ◌>>=◌
  use_recovery_code-unused user_id value w = spend_lem user_id value w _ refl
