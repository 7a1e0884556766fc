-- ===== src/Grant/Refresh/Success.antt =====
-- What a refresh that succeeds has checked, stored and returned.
use mathlib.Core.Path.{subst, sym}
use authometry.Common.{
  ◌+◌, ◌*◌, ◌++◌, ◌∷◌, [], ◌==◌, ◌≤◌, ◌∙◌, min, ap, update_where, ◌≡◌, refl, String, true, false,
  Option, none, some, List, arith, is_some, Option-cases, inl, inr, every, includes,
}
use authometry.Common.Text.{join}
use authometry.Database.{
  Uuid, OAuthApplicationRow, IdentityUserRow, AdminRow, RefreshFamilyRow, RefreshTokenRow, Tables,
  Runtime, World, ok, ◌>>=◌, transaction, Any, all_tables, Quiet-Steady, weaken-Steady, Steady,
  pure-Steady, client_read-Steady, or_throw-Steady, identify-Steady, >>=-Steady,
}
use authometry.Signing.{hash_token, random_token}
use authometry.Issue.{TokenSet, issue_token_set}
use authometry.Issue.Laws.{issue_token_set-Quiet}
use authometry.Grant.{resource_refused}
use authometry.Grant.Refresh.{
  find_current, find_user, find_admin, identify_subject, refresh_issue_input, refresh_issue, is_due,
  granted_scopes, rotate, used_or_rotated, refresh_work, refresh_token_grant, consume_token,
  insert_next,
}
use authometry.Grant.Refresh.Rotation.{Meets}

module _ (r : Runtime) (application : OAuthApplicationRow) where
  find_user-Steady : (id : Option Uuid) → Steady all_tables Any (find_user r application id)
  find_user-Steady none = pure-Steady all_tables Any none tt
  find_user-Steady (some id) = client_read-Steady all_tables Any _ (λ t. tt)

  find_admin-Steady : (id : Option Uuid) → Steady all_tables Any (find_admin r application id)
  find_admin-Steady none = pure-Steady all_tables Any none tt
  find_admin-Steady (some id) =
      >>=-Steady all_tables Any Any _ _ (client_read-Steady all_tables Any _ (λ t. tt)) λ admin _.
        >>=-Steady all_tables Any Any _ _ (or_throw-Steady all_tables Any admin _ (λ a e. tt))
          λ found _. pure-Steady all_tables Any _ tt

  identify_subject-Steady :
      (admin : Option AdminRow) (user : Option IdentityUserRow)
      → Steady all_tables Any (identify_subject r application admin user)
  identify_subject-Steady (some admin) user = identify-Steady all_tables _
  identify_subject-Steady none (some user) = identify-Steady all_tables _
  identify_subject-Steady none none = pure-Steady all_tables Any tt tt

  issue-Steady :
      (f : RefreshFamilyRow) (scopes : List String) (user : Option IdentityUserRow)
      (admin : Option AdminRow)
      → Steady all_tables
          (λ t. t.scope ≡ join scopes)
          (issue_token_set r application (refresh_issue_input r application f scopes user admin))
  unfolding refresh_issue_input
  issue-Steady f scopes user admin =
      weaken-Steady all_tables (λ t. t.scope ≡ join scopes) _ (λ t reports. reports.scope)
        (Quiet-Steady all_tables _ (issue_token_set-Quiet r application _ refl))

  refresh_issue-Steady :
      (f : RefreshFamilyRow) (scopes : List String)
      → Steady all_tables (λ t. t.scope ≡ join scopes) (refresh_issue r application f scopes)
  unfolding refresh_issue
  refresh_issue-Steady f scopes =
      >>=-Steady all_tables Any _ _ _ (find_user-Steady f.user_id) λ user _.
        >>=-Steady all_tables Any _ _ _ (find_admin-Steady f.admin_user_id) λ admin _.
          >>=-Steady all_tables Any _ _ _ (identify_subject-Steady admin user)
            λ u _. issue-Steady f scopes user admin

  -- What `rotate` has checked and done when it returns `t`, from the tables `before` to `after`.
  pub record Rotates (k : RefreshTokenRow) (f : RefreshFamilyRow) (scope : Option String)
      (resource : String) (before after : Tables) (t : TokenSet) : Type 0 where
    pub not_due : is_due r application k f ≡ false
    pub within : every (includes f.scopes) (granted_scopes r application scope f) ≡ true
    pub bound : resource_refused r (is_some f.admin_user_id) resource f.resource ≡ false
    pub scope_sent : t.scope ≡ join (granted_scopes r application scope f)
    pub token : String
    pub sent : t.refresh_token ≡ some token
    pub id : Uuid
    pub stored :
        after
        ≡ insert_next r application k f id
            (hash_token r token)
            (consume_token r application k.id before)
    pub next : RefreshTokenRow
    pub tokens :
        after.tokens
        ≡ update_where
            (λ x. x.id == k.id)
            (λ x. record x { consumed_at = some r.sql_now })
            before.tokens
          ++ next ∷ []
    pub families : after.families ≡ before.families
    pub hashed : next.token_hash ≡ hash_token r token
    pub same_family : next.family_id ≡ f.id
    pub child : next.parent_id ≡ some k.id
    pub unused : next.consumed_at ≡ none
    pub unrevoked : next.revoked_at ≡ none
    pub lasts : next.expires_at ≤ f.expires_at

  rotated : (k : RefreshTokenRow) (f : RefreshFamilyRow) (w : World) → World
  rotated k f w = record w {
    draft =
        insert_next r application k f (r.random_uuid (w.draws + 1))
          (hash_token r (r.random_bytes w.draws 48)) (consume_token r application k.id w.draft);
    draws = w.draws + 1 + 1;
  }

  next_row : RefreshTokenRow → RefreshFamilyRow → World → RefreshTokenRow
  next_row k f w = record {
    id = r.random_uuid (w.draws + 1);
    family_id = f.id;
    token_hash = hash_token r (r.random_bytes w.draws 48);
    parent_id = some k.id;
    expires_at = min f.expires_at (r.sql_now + application.refresh_token_lifetime_seconds * 1000);
    consumed_at = none;
    revoked_at = none;
  }

  rotated_tokens :
      (k : RefreshTokenRow) (f : RefreshFamilyRow) (w : World)
      → (rotated k f w).draft.tokens
        ≡ update_where
            (λ x. x.id == k.id)
            (λ x. record x { consumed_at = some r.sql_now })
            w.draft.tokens
          ++ next_row k f w ∷ []
  unfolding rotated next_row insert_next consume_token
  rotated_tokens k f w = refl

  rotated_families :
      (k : RefreshTokenRow) (f : RefreshFamilyRow) (w : World)
      → (rotated k f w).draft.families ≡ w.draft.families
  unfolding rotated insert_next consume_token
  rotated_families k f w = refl

  rotate-Rotates :
      (k : RefreshTokenRow) (f : RefreshFamilyRow) (scope : Option String) (resource : String)
      (w : World) (t : TokenSet)
      → (rotate r application k f scope resource w).0 ≡ ok t
      → Rotates k f scope resource w.draft (rotate r application k f scope resource w).1.draft t
  unfolding rotate random_token rotated next_row ◌>>=◌
  rotate-Rotates k f scope resource w t h =
      let stays =
        (refresh_issue-Steady f (granted_scopes r application scope f)).stays (rotated k f w) in
      let stored : (rotate r application k f scope resource w).1.draft ≡ (rotated k f w).draft =
        ground arith in
      record {
        not_due = ground arith;
        within = ground arith;
        bound = ground arith;
        scope_sent = grind (arith, stays.result);
        token = r.random_bytes w.draws 48;
        sent = ground arith;
        id = r.random_uuid (w.draws + 1);
        stored = stored;
        next = next_row k f w;
        tokens = ap (λ (s : Tables). s.tokens) stored ∙ rotated_tokens k f w;
        families = ap (λ (s : Tables). s.families) stored ∙ rotated_families k f w;
        hashed = refl;
        same_family = refl;
        child = refl;
        unused = refl;
        unrevoked = refl;
        lasts = omega arith;
      }

  -- A refresh that succeeds met a live row of this client that was not used before, and has
  -- rotated it: the response's scopes are within the family's, the old token is consumed, and the
  -- token in the response is stored as its child in the same family, unused, to expire no later
  -- than the family. No family changes.
  pub refresh-Rotates :
      (raw_token : String) (scope : Option String) (resource : String) (w : World) (t : TokenSet)
      → (refresh_token_grant r application raw_token scope resource w).0 ≡ ok t
      → (k : RefreshTokenRow) × (f : RefreshFamilyRow) × Meets r application raw_token w.committed k
          f
        × (is_some k.consumed_at ≡ false)
        × Rotates k f scope resource w.committed
            (refresh_token_grant r application raw_token scope resource w).1.committed
            t
  unfolding refresh_token_grant refresh_work used_or_rotated transaction ◌>>=◌
  refresh-Rotates raw_token scope resource w t h =
      elim (Option-cases (find_current (hash_token r raw_token) w.committed)) [
        | inl missing ↦ absurd (ground arith)
        | inr ((k, f), found) ↦
            let begun : World = record w { draft = w.committed } in
            let returned : (rotate r application k f scope resource begun).0 ≡ ok t =
              ground arith in
            let same : (refresh_token_grant r application raw_token scope resource w).1.committed
                ≡ (rotate r application k f scope resource begun).1.draft =
              ground arith in
            (
              k,
              f,
              record {
                found = found;
                same_client = ground arith;
                not_revoked = ground arith;
                live = ground arith;
              },
              ground arith,
              subst (λ after. Rotates k f scope resource w.committed after t) (sym same)
                  (rotate-Rotates k f scope resource begun t returned),
            )
      ]
