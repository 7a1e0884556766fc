-- ===== src/Authorize/Issue/Policies.antt =====
-- The policies that an authorization passes.
use authometry.Common.{
  ◌≡◌, Bool, true, false, not, none, List, [], ◌∷◌, arith, Bool-cases, inl, inr, All, find, keep,
  if◌then◌else◌,
}
use authometry.Database.{
  OAuthApplicationRow, IdentityUserRow, AuthorizationParameters, PolicyRow, Tables, Runtime,
}
use authometry.Policy.{evaluate_all}
use authometry.Authorize.Issue.{insert_policy, sorted, applies, policy_context, denying_policy}

module _ {ℓ κ} {A : Type ℓ} (P : A → Type κ) where
  -- What no row violates holds of every row.
  find-none-All :
      (p : A → Bool) → ((x : A) → p x ≡ false → P x) → (xs : List A) → find p xs ≡ none → All P xs
  find-none-All p f [] h = tt
  find-none-All p f (x ∷ xs) h = elim (Bool-cases (p x)) [
    | inl passes ↦ absurd (ground arith)
    | inr fails ↦ (f x fails, find-none-All p f xs (ground arith))
  ]

  keep-All : (p : A → Bool) (xs : List A) → All P (keep p xs) → All (λ x. p x ≡ true → P x) xs
  keep-All p [] h = tt
  keep-All p (x ∷ xs) h = elim (Bool-cases (p x)) [
    | inl passes ↦ let (first, rest) = kept x xs passes h in (λ _. first, keep-All p xs rest)
    | inr fails ↦ (λ passes. absurd (ground arith), keep-All p xs (dropped x xs fails h))
  ]
    where
      kept :
          (x : A) (xs : List A)
          → p x ≡ true
          → All P (if p x then x ∷ keep p xs else keep p xs)
          → P x × All P (keep p xs)
      kept x xs passes h = rw passes at h

      dropped :
          (x : A) (xs : List A)
          → p x ≡ false
          → All P (if p x then x ∷ keep p xs else keep p xs)
          → All P (keep p xs)
      dropped x xs fails h = rw fails at h

module _ {κ} (P : PolicyRow → Type κ) (r : Runtime) where
  insert_policy-All :
      (q : PolicyRow) (qs : List PolicyRow) → All P (insert_policy r q qs) → P q × All P qs
  unfolding insert_policy
  insert_policy-All q [] h = h
  insert_policy-All q (x ∷ xs) h = elim (Bool-cases (r.collate_le q.name x.name)) [
    | inl passes ↦ placed q x xs passes h
    | inr fails ↦
        let (here, rest) = passed q x xs fails h in
        let (found, others) = insert_policy-All q xs rest in (found, (here, others))
  ]
    where
      placed :
          (q x : PolicyRow) (xs : List PolicyRow)
          → r.collate_le q.name x.name ≡ true
          → All P (if r.collate_le q.name x.name then q ∷ x ∷ xs else x ∷ insert_policy r q xs)
          → P q × (P x × All P xs)
      placed q x xs passes h = rw passes at h

      passed :
          (q x : PolicyRow) (xs : List PolicyRow)
          → r.collate_le q.name x.name ≡ false
          → All P (if r.collate_le q.name x.name then q ∷ x ∷ xs else x ∷ insert_policy r q xs)
          → P x × All P (insert_policy r q xs)
      passed q x xs fails h = rw fails at h

  sorted-All : (qs : List PolicyRow) → All P (sorted r qs) → All P qs
  unfolding sorted
  sorted-All [] h = tt
  sorted-All (q ∷ qs) h =
      let (here, rest) = insert_policy-All q (sorted r qs) h in (here, sorted-All qs rest)

-- Every enabled policy of the environment that names the application, or none, holds.
abbrev pub Allowed :
    Runtime → OAuthApplicationRow → IdentityUserRow → AuthorizationParameters → Tables → Type 0
Allowed r a user p t =
    All (λ q. applies a q ≡ true → evaluate_all q.conditions (policy_context r a user p) ≡ true)
      t.policies

pub denying_policy-Allowed :
    (r : Runtime) (a : OAuthApplicationRow) (user : IdentityUserRow) (p : AuthorizationParameters)
    (t : Tables)
    → denying_policy r a user p t ≡ none
    → Allowed r a user p t
unfolding denying_policy
denying_policy-Allowed r a user p t h =
    let holds = λ (q : PolicyRow). evaluate_all q.conditions (policy_context r a user p) ≡ true in
    keep-All holds (applies a) t.policies (
      sorted-All holds r (keep (applies a) t.policies) (
        find-none-All holds (λ q. not (evaluate_all q.conditions (policy_context r a user p)))
          (λ q fails. ground arith) (sorted r (keep (applies a) t.policies)) h))
