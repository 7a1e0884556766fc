-- ===== src/Endpoint/Introspection/Graded.antt =====
-- A token exchange keeps the lines of grants that introspection follows.
use mathlib.Core.Path.{subst}
use authometry.Common.{
  ◌+◌, ◌≡◌, sym, ap, ◌∙◌, String, Bool, true, none, some, List, [], ◌∷◌, ◌++◌, arith, ◌==◌, str_eq,
  find, find-append, Option-cases, inl, inr,
}
use authometry.Database.{
  Uuid, OAuthApplicationRow, AgentIdentityRow, DelegationGrantRow, Tables, Runtime, World, ok,
}
use authometry.Issue.{TokenSet}
use authometry.Grant.Exchange.{ExchangeRequest, find_parent, token_exchange_grant}
use authometry.Grant.Exchange.Laws.{exchange-Attenuates}
use authometry.Endpoint.Introspection.Laws.{grant_by_id, IsGraded, same_grant}

-- A search that fails in the table reaches the row at its end.
find_last {ℓ} :
    {A : Type ℓ} (p : A → Bool) (xs : List A) (a b : A)
    → find p xs ≡ none
    → find p (xs ++ a ∷ []) ≡ some b
    → (a ≡ b) × (p a ≡ true)
find_last p [] a b h e = (ground arith, ground arith)
find_last p (x ∷ xs) a b h e = find_last p xs a b (ground arith) (ground arith)

-- The parent that an exchange reads is the stored grant of its identifier.
find_parent-grant_by_id :
    (r : Runtime) (id : String) (t : Tables) (g : DelegationGrantRow) (a : AgentIdentityRow)
    → find_parent r id t ≡ some (g, a)
    → grant_by_id g.id t ≡ some g
find_parent-grant_by_id r id t g a h =
    elim (Option-cases (find (λ (x : DelegationGrantRow). str_eq (r.uuid_text x.id) id) t.grants)) [
      | inl missing ↦ absurd (ground arith)
      | inr (x, found) ↦
          elim (Option-cases (find (λ (y : AgentIdentityRow). y.id == x.actor_agent_id) t.agents)) [
            | inl unknown ↦ absurd (ground arith)
            | inr (y, met) ↦
                let same : x ≡ g = ground arith in
                subst (λ (z : DelegationGrantRow). grant_by_id z.id t ≡ some z) same
                  (same_grant r.uuid_text id t.grants x found)
          ]
    ]

insert-IsGraded :
    (s t : Tables) (parent child : DelegationGrantRow)
    → t.grants ≡ s.grants ++ child ∷ []
    → child.parent_grant_id ≡ some parent.id
    → child.delegation_depth ≡ parent.delegation_depth + 1
    → grant_by_id parent.id s ≡ some parent
    → IsGraded s
    → IsGraded t
insert-IsGraded s t parent child stored up deeper known graded id above g found named =
    elim (Option-cases (grant_by_id id s)) [
      | inl new ↦
          let (same, its_id) =
            find_last (λ x. x.id == id) s.grants child g new (sym (search_t id) ∙ found) in
          let parent_is : parent.id ≡ above = ground arith in
          (
            parent,
            subst (λ i. grant_by_id i t ≡ some parent) parent_is (kept parent.id parent known),
            ap (λ (x : DelegationGrantRow). x.delegation_depth) (sym same) ∙ deeper,
          )
      | inr (g', old) ↦
          let same : g' ≡ g = ground (arith, kept id g' old) in
          let (p, met, depth) =
            graded id above g (subst (λ x. grant_by_id id s ≡ some x) same old) named in
          (p, kept above p met, depth)
    ]
  where
    search_t : (i : Uuid) → grant_by_id i t ≡ find (λ x. x.id == i) (s.grants ++ child ∷ [])
    search_t i = ap (find (λ (x : DelegationGrantRow). x.id == i)) stored

    kept : (i : Uuid) (x : DelegationGrantRow) → grant_by_id i s ≡ some x → grant_by_id i t ≡ some x
    kept i x h = search_t i ∙ find-append (λ x. x.id == i) s.grants (child ∷ []) x h

-- A token exchange that gives a token keeps the lines of grants in order: if the parent of each
-- stored grant is stored one level above it, this is so afterwards.
pub exchange-IsGraded :
    (r : Runtime) (application : OAuthApplicationRow) (q : ExchangeRequest) (w : World)
    (t : TokenSet)
    → IsGraded w.committed
    → (token_exchange_grant r application q w).0 ≡ ok t
    → IsGraded (token_exchange_grant r application q w).1.committed
exchange-IsGraded r application q w t graded h =
    let (agent, parent, child, receives, made) = exchange-Attenuates r application q w t h in
    let (id, found) = made.parent_stored in
    insert-IsGraded w.committed (token_exchange_grant r application q w).1.committed parent child
      made.stored made.child_of made.deeper
      (find_parent-grant_by_id r id w.committed parent made.delegator found) graded
