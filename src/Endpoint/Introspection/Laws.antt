-- ===== src/Endpoint/Introspection/Laws.antt =====
-- An active token of a delegation: every grant of its line holds.
use mathlib.Core.Path.{subst}
use authometry.Common.{
  ℕ, zero, suc, ◌+◌, ◌≡◌, sym, ap, ◌∙◌, ◌<◌, String, true, false, not, Option, some, List, [], ◌∷◌,
  arith, ◌==◌, str_eq, find, find_holds, every, Bool-cases, Option-cases, inl, inr,
}
use authometry.Json.{Claims, str, get_claim}
use authometry.Database.{
  Uuid, OAuthApplicationRow, DelegationGrantRow, Tables, Runtime, World, ok, ok-injective,
  all_tables, >>=-ok, read-ok, checked-ok,
}
use authometry.Signing.{verify_oauth_jwt}
use authometry.Signing.Effects.{needed-ok, verify_oauth_jwt-Steady}
use authometry.Endpoint.Introspection.{
  Introspection, lineage_from, lineage, grant_holds, lineage_holds, is_revoked, bound_holds,
  introspect_access, client_of,
}

abbrev pub grant_by_id : Uuid → Tables → Option DelegationGrantRow
grant_by_id id t = find (λ g. g.id == id) t.grants

-- The grant of that identifier, and those it descends from.
pub data Above (t : Tables) : Uuid → DelegationGrantRow → Type 0 where
  itself : {id : Uuid} {g : DelegationGrantRow} → grant_by_id id t ≡ some g → Above t id g
  above :
      {id parent : Uuid} {g a : DelegationGrantRow}
      → grant_by_id id t ≡ some g
      → g.parent_grant_id ≡ some parent
      → Above t parent a
      → Above t id a

-- The parent of a stored grant is stored, and one level above it.
abbrev pub IsGraded : Tables → Type 0
IsGraded t =
    (id parent : Uuid) (g : DelegationGrantRow)
    → grant_by_id id t ≡ some g
    → g.parent_grant_id ≡ some parent
    → (p : DelegationGrantRow) × (grant_by_id parent t ≡ some p)
      × (g.delegation_depth ≡ p.delegation_depth + 1)

module _ (r : Runtime) (t : Tables) (graded : IsGraded t) where
  bottom :
      {id : Uuid} {a : DelegationGrantRow}
      → Above t id a
      → (g : DelegationGrantRow) × (grant_by_id id t ≡ some g)
  bottom (itself {g = g} found) = (g, found)
  bottom (above {g = g} found up rest) = (g, found)

  every-Above :
      (n : ℕ) (id : Uuid) (a : DelegationGrantRow)
      → every (grant_holds r t) (lineage_from n id t) ≡ true
      → ((g : DelegationGrantRow) → grant_by_id id t ≡ some g → g.delegation_depth < n)
      → Above t id a
      → grant_holds r t a ≡ true
  unfolding lineage_from
  every-Above zero id a h deep (itself {g = g} found) = absurd (let d = deep g found in omega arith)
  every-Above zero id a h deep (above {g = g} found up rest) =
      absurd (let d = deep g found in omega arith)
  every-Above (suc n) id a h deep (itself found) = ground arith
  every-Above (suc n) id a h deep (above {parent = parent} {g = g} found up rest) =
      every-Above n parent a (ground arith)
        (λ p met.
          let d = deep g found in
          let (p', met', e) = graded id parent g found up in
          let same : p'.delegation_depth ≡ p.delegation_depth = ground arith in omega arith)
        rest

-- The grant that is found by its identifier as a text is the one of that identifier.
pub same_grant :
    (text : Uuid → String) (s : String) (gs : List DelegationGrantRow) (g : DelegationGrantRow)
    → find (λ x. str_eq (text x.id) s) gs ≡ some g
    → find (λ x. x.id == g.id) gs ≡ some g
same_grant text s [] g h = absurd (cc)
same_grant text s (x ∷ gs) g h = elim (Bool-cases (str_eq (text x.id) s)) [
  | inl same ↦ ground arith
  | inr other ↦
      let rest : find (λ y. str_eq (text y.id) s) gs ≡ some g = ground arith in
      let named = find_holds (λ y. str_eq (text y.id) s) gs g rest in
      elim (Bool-cases (x.id == g.id)) [
        | inl equal ↦
            let ids : x.id ≡ g.id = ground arith in
            let clash : true ≡ false = sym named ∙ ap (λ i. str_eq (text i) s) (sym ids) ∙ other in
            absurd (cc)
        | inr different ↦ rw different (same_grant text s gs g rest)
      ]
]

module _ (r : Runtime) (application : OAuthApplicationRow) where
  lineage_holds-Above :
      (t : Tables) (graded : IsGraded t) (id : String)
      → lineage_holds r id t ≡ true
      → (g : DelegationGrantRow) × (find (λ g. str_eq (r.uuid_text g.id) id) t.grants ≡ some g)
        × ((a : DelegationGrantRow) → Above t g.id a → grant_holds r t a ≡ true)
  unfolding lineage_holds lineage
  lineage_holds-Above t graded id h =
      elim (Option-cases
        (find (λ (g : DelegationGrantRow). str_eq (r.uuid_text g.id) id) t.grants)) [
          | inl missing ↦ absurd (ground arith)
          | inr (g, found) ↦
              let own = same_grant r.uuid_text id t.grants g found in
              (
                g,
                found,
                λ a up.
                    every-Above r t graded (suc g.delegation_depth) g.id a (ground arith)
                      (λ g' met.
                        let same : g'.delegation_depth ≡ g.delegation_depth = ground arith in
                        omega arith)
                      up,
              )
        ]

  -- If the parent of each stored grant is stored one level above it, an access token of a delegation is
  -- reported as active only if its grant is stored, and this grant and each one that it descends
  -- from is active and in time with an active agent; and the token was not revoked.
  pub introspect-Above :
      (token : String) (id : String) (w : World) (verified : Claims) (x : Introspection)
      → IsGraded w.committed
      → (verify_oauth_jwt r token (some application.issuer) w).0 ≡ ok verified
      → get_claim "authometry_grant_id" verified ≡ some (str id)
      → (introspect_access r application token w).0 ≡ ok x
      → (is_revoked r verified w.committed ≡ false)
        × ((g : DelegationGrantRow) × (find (λ g. str_eq (r.uuid_text g.id) id) w.committed.grants
              ≡ some g)
            × ((a : DelegationGrantRow)
                → Above w.committed g.id a
                → grant_holds r w.committed a ≡ true))
  unfolding introspect_access
  introspect-Above token id w verified x graded holds named h =
      let (payload, decoded, rest) = needed-ok r _ w x (r.decode_jwt token) _ h in
      let (v, verifies, rest', end) =
        >>=-ok (verify_oauth_jwt r token (some application.issuer)) _ w x rest in
      let w' = (verify_oauth_jwt r token (some application.issuer) w).1 in
      let kept =
        ((verify_oauth_jwt-Steady r all_tables token (some application.issuer)).stays
          w).committed in
      let same : v ≡ verified = ok-injective v verified (sym verifies ∙ holds) in
      let (environment, left) =
        checked-ok _ _ _ w' x (read-ok _ w' x (client_of r (get_claim "client_id" v)) rest') in
      let (fresh, left') = checked-ok _ _ _ w' x (read-ok _ w' x (is_revoked r v) left) in
      let (bound, left'') =
        checked-ok _ _ _ w' x (
          read-ok _ w' x (bound_holds r application v (get_claim "authometry_grant_id" v)) left') in
      let stored =
        subst (λ t. not (bound_holds r application v (get_claim "authometry_grant_id" v) t) ≡ false)
          kept bound in
      let of_verified =
        subst
          (λ c.
            not (bound_holds r application c (get_claim "authometry_grant_id" c) w.committed)
            ≡ false)
          same stored in
      let of_grant =
        subst (λ o. not (bound_holds r application verified o w.committed) ≡ false) named
          of_verified in
      let live : lineage_holds r id w.committed ≡ true = ground arith in
      (
        subst (λ c. is_revoked r c w.committed ≡ false) same
            (subst (λ t. is_revoked r v t ≡ false) kept fresh),
        lineage_holds-Above w.committed graded id live,
      )
