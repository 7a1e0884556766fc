-- ===== src/Agents/Laws.antt =====
-- `reduceAuthorizationDetails` of apps/server/src/oauth/agents.ts: less authority, never more.
use authometry.Common.{◌≡◌, String, Bool, true, List, [], ◌∷◌, Bool-cases, inl, inr, keep, map, All}
use authometry.Database.{AgentAuthorizationDetails}
use authometry.Agents.{
  action_covered_by_scopes, reduced_detail, has_actions, reduce_authorization_details,
}

module _ {ℓ} {A : Type ℓ} where
  -- What `filter` keeps passes its test, and has what all elements have.
  keep-All {κ} :
      (P : A → Type κ) (p : A → Bool) (xs : List A)
      → All P xs
      → All (λ x. (p x ≡ true) × P x) (keep p xs)
  keep-All P p [] h = tt
  keep-All P p (x ∷ xs) h = elim (Bool-cases (p x)) [
    | inl passes ↦ rw passes ((passes, h.0), keep-All P p xs h.1)
    | inr fails ↦ rw fails (keep-All P p xs h.1)
  ]

  weaken-All {κ κ'} :
      (P : A → Type κ) (Q : A → Type κ') (xs : List A) → ((x : A) → P x → Q x) → All P xs → All Q xs
  weaken-All P Q [] f h = tt
  weaken-All P Q (x ∷ xs) f h = (f x h.0, weaken-All P Q xs f h.1)

  every_one {κ} : (P : A → Type κ) (xs : List A) → ((x : A) → P x) → All P xs
  every_one P [] f = tt
  every_one P (x ∷ xs) f = (f x, every_one P xs f)

  map-All {κ} : (P : A → Type κ) (f : A → A) (xs : List A) → ((x : A) → P (f x)) → All P (map f xs)
  map-All P f [] h = tt
  map-All P f (x ∷ xs) h = (h x, map-All P f xs h)

-- Authority that lies within the scopes: an action at least, and every action covered.
pub record IsCovered (scopes : List String) (detail : AgentAuthorizationDetails) : Type 0 where
  pub acts : has_actions detail ≡ true
  pub covered : All (λ action. action_covered_by_scopes action scopes ≡ true) detail.actions

-- What is left of an agent's authority under some scopes has an action in each of its details, and
-- every action is covered by one of the scopes.
pub reduce_authorization_details-IsCovered :
    (details : List AgentAuthorizationDetails) (scopes : List String)
    → All (IsCovered scopes) (reduce_authorization_details details scopes)
unfolding reduce_authorization_details
reduce_authorization_details-IsCovered details scopes =
    let Covered : AgentAuthorizationDetails → Type 0 =
      λ d. All (λ a. action_covered_by_scopes a scopes ≡ true) d.actions in
    weaken-All {0, 0, 0} _ _ (keep has_actions (map (reduced_detail scopes) details))
      (λ d h. record { acts = h.0; covered = h.1 })
      (keep-All Covered has_actions _ (
        map-All Covered (reduced_detail scopes) details λ d.
          weaken-All {0, 0, 0} _ _ _ (λ a h. h.0)
            (keep-All {0, 0} (λ a. Unit) (λ a. action_covered_by_scopes a scopes) d.actions
              (every_one {0, 0} (λ a. Unit) d.actions (λ a. tt)))))
