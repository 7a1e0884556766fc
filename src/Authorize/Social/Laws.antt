-- ===== src/Authorize/Social/Laws.antt =====
-- Whom the callback of a social provider (apps/server/src/oauth/authorization.ts) signs in.
use mathlib.Core.Path.{subst}
use authometry.Common.{
  ℕ, ◌≡◌, refl, String, true, not, Option, none, some, ◌⊎◌, inl, inr, ◌∙◌, ap, not-false,
}
use authometry.Database.{
  Uuid, is_active, IdentityUserRow, Tables, Runtime, World, ok, ◌>>=◌, >>=-ok, guarded-ok,
  transaction, transaction-ok, pure, draw, client_write, ◌>>◌,
}
use authometry.Signing.{random_token}
use authometry.Authorize.{Next, Opened}
use authometry.Authorize.Continue.{continue_after_authentication}
use authometry.Authorize.Social.{
  SocialProfile, Resolution, authenticated, link_required, onward, linked_identity, user_linked,
  new_user, user_by_email, as_linked, as_existing, as_new, unlinked, settled, resolve_profile, land,
  has_password, with_profile,
}

module _ (r : Runtime) (opened : Opened) (provider : String) (profile : SocialProfile) where
  abbrev pub linked_user : Tables → Option IdentityUserRow
  linked_user t =
      user_linked r (linked_identity r opened.application.workspace_id provider profile.subject t) t

  -- The user is active and linked to the provider's subject, or is new, and then nobody had the
  -- subject or the email address.
  abbrev pub Vouched : Tables → IdentityUserRow → Type 0
  Vouched t user =
      ((linked_user t ≡ some user) × (is_active user.status ≡ true))
      ⊎ ((linked_user t ≡ none)
          × (user_by_email r opened.application.workspace_id profile.email t ≡ none)
          × ((id : Uuid) × (user ≡ new_user r opened.application profile id)))

  pub record Welcomed (w : World) (next : Next) : Type 0 where
    pub verified : profile.email_verified ≡ true
    pub user : IdentityUserRow
    pub vouched : Vouched w.committed user
    pub continued :
        (w' : World) × ((continue_after_authentication r opened.pending opened.application user
            w').0
          ≡ ok next)

  signed_lem :
      (f : Tables → Tables) (found user : IdentityUserRow) (w : World)
      → ((client_write f >> pure (authenticated found)) w).0 ≡ ok (authenticated user)
      → found ≡ user
  unfolding ◌>>=◌
  signed_lem f found user w h = cc

  linked_lem :
      (found user : IdentityUserRow) (w : World)
      → (as_linked r opened provider profile found w).0 ≡ ok (authenticated user)
      → (found ≡ user) × (is_active user.status ≡ true)
  unfolding as_linked
  linked_lem found user w h =
      let (active, rest) = guarded-ok (not (is_active found.status)) _ _ w _ h in
      let same : found ≡ user = signed_lem _ found user w rest in
      (
        same,
        subst (λ u. is_active u.status ≡ true) same (not-false (is_active found.status) active),
      )

  new_lem :
      (user : IdentityUserRow) (w : World)
      → (as_new r opened provider profile w).0 ≡ ok (authenticated user)
      → (id : Uuid) × (user ≡ new_user r opened.application profile id)
  unfolding as_new ◌>>=◌
  new_lem user w h = (r.random_uuid w.draws, cc)

  asked_lem :
      (f : ℕ → Tables → Tables) (user : IdentityUserRow) (w : World)
      → ¬ (((draw >>= λ n. client_write (f n) >> pure link_required) w).0 ≡ ok (authenticated user))
  unfolding ◌>>=◌
  asked_lem f user w h = cc

  existing_lem :
      (token : String) (found user : IdentityUserRow) (w : World)
      → ¬ ((as_existing r opened provider profile token found w).0 ≡ ok (authenticated user))
  unfolding as_existing
  existing_lem token found user w h =
      let (active, there) = guarded-ok (not (is_active found.status)) _ _ w _ h in
      let (known, rest) = guarded-ok (not (has_password r found.password_hash)) _ _ w _ there in
      asked_lem _ user w rest

  unlinked_lem :
      (token : String) (o : Option IdentityUserRow) (user : IdentityUserRow) (w : World)
      → (unlinked r opened provider profile token o w).0 ≡ ok (authenticated user)
      → (o ≡ none) × ((id : Uuid) × (user ≡ new_user r opened.application profile id))
  unfolding unlinked
  unlinked_lem token none user w h = (refl, new_lem user w h)
  unlinked_lem token (some found) user w h = absurd (existing_lem token found user w h)

  settled_lem :
      (token : String) (o : Option IdentityUserRow) (user : IdentityUserRow) (w : World)
      → linked_user w.draft ≡ o
      → (settled r opened provider profile token o w).0 ≡ ok (authenticated user)
      → Vouched w.draft user
  unfolding settled ◌>>=◌
  settled_lem token none user w o h =
      let (nobody, made) = unlinked_lem token _ user w h in inr (o, nobody, made)
  settled_lem token (some found) user w o h =
      let (same, active) = linked_lem found user w h in inl (o ∙ ap some same, active)

  -- A profile is resolved to a user it vouches for.
  resolve_profile_lem :
      (token : String) (w : World) (user : IdentityUserRow)
      → (resolve_profile r opened provider profile token w).0 ≡ ok (authenticated user)
      → Vouched w.draft user
  unfolding resolve_profile ◌>>=◌
  resolve_profile_lem token w user h = settled_lem token _ user w refl h

  land_lem :
      (token : String) (to : Resolution) (w : World) (next : Next)
      → (land r opened provider token to w).0 ≡ ok (onward next)
      → (user : IdentityUserRow) × (to ≡ authenticated user)
        × ((continue_after_authentication r opened.pending opened.application user w).0 ≡ ok next)
  unfolding land
  land_lem token (authenticated user) w next h =
      let m = continue_after_authentication r opened.pending opened.application user in
      let (there, returned, rest, end) = >>=-ok m (λ n. pure (onward n)) w (onward next) h in
      let same : there ≡ next = same_next there next rest in
      (user, refl, subst (λ n. (m w).0 ≡ ok n) same returned)
    where
      same_next : (a b : Next) → ok (onward a) ≡ ok (onward b) → a ≡ b
      same_next a b e = cc
  land_lem token link_required w next h = absurd (cc)

  drawn_lem : (w : World) → (random_token r 40 w).1.committed ≡ w.committed
  unfolding random_token ◌>>=◌
  drawn_lem w = refl

  -- A social login that goes on, and not to the page that asks for a password, is with a verified
  -- email address, and as an active user who is linked to the provider's subject, or as a new user
  -- where nobody was linked to the subject and nobody had the email address.
  pub with_profile-Welcomed :
      (w : World) (next : Next)
      → (with_profile r opened provider profile w).0 ≡ ok (onward next)
      → Welcomed w next
  unfolding with_profile
  with_profile-Welcomed w next h =
      let (verified, started) = guarded-ok (not profile.email_verified) _ _ w _ h in
      let (token, _, resolved, _) = >>=-ok (random_token r 40) _ w _ started in
      let w1 = (random_token r 40 w).1 in
      let work = resolve_profile r opened provider profile token in
      let (to, returned, landed, _) = >>=-ok (transaction work) _ w1 _ resolved in
      let (user, at, continued) = land_lem token to (transaction work w1).1 next landed in
      let (done, _) = transaction-ok work w1 to returned in
      let vouched =
        resolve_profile_lem token (record w1 { draft = w1.committed }) user (done ∙ ap ok at) in
      record {
        verified = not-false profile.email_verified verified;
        user = user;
        vouched = subst (λ t. Vouched t user) (drawn_lem w) vouched;
        continued = ((transaction work w1).1, continued);
      }
