-- ===== src/Authorize/PushedRequest.antt =====
-- `parSchema` of apps/server/src/oauth/authorization.ts: the parameters that an agent pushes.
use authometry.Common.{
  ℕ, String, Bool, Option, none, some, List, [], ◌∷◌, ◌&&◌, ltb, leb, if◌then◌else◌, truthy, every,
  length,
}
use authometry.Common.Text.{text_length}
use authometry.Json.{Json, str, arr, obj, Items, nil, cons, Fields, get_field, claim_is}
use authometry.Database.{AuthorizationParameters, AgentAuthorizationDetails, Runtime}
use authometry.Client.{Request}
use authometry.Authorize.Start.{query_value, if_given, is_url, parse_authorization}

-- An array of texts.
texts : Items → Option (List String)
texts nil = some []
texts (cons (Json.str s) vs) = elim (texts vs) [ none ↦ none | some ss ↦ some (s ∷ ss) ]
texts (cons _ vs) = none

unfoldable pub texts_in : Option Json → Option (List String)
unfolding texts
texts_in (some (arr vs)) = texts vs
texts_in _ = none

abbrev pub within_25 {ℓ} : {A : Type ℓ} → List A → Bool
within_25 xs = ltb 0 (length xs) && leb (length xs) 25

-- `none`: refused; `some none`: not given.
abbrev pub optional_fields : Option Json → Option (Option Fields)
optional_fields none = some none
optional_fields (some (obj fs)) = some (some fs)
optional_fields _ = none

-- A text of 1 to `limit` characters.
abbrev pub optional_text : ℕ → Option Json → Option (Option String)
optional_text limit none = some none
optional_text limit (some (str s)) =
    if truthy s && leb (text_length s) limit then some (some s) else none
optional_text limit _ = none

abbrev pub text_in : Option Json → Option String
text_in (some (str s)) = if truthy s then some s else none
text_in _ = none

module _ (r : Runtime) where
  abbrev pub detail_from :
      Option (List String)
      → Option (List String)
      → Option String
      → Option (Option Fields)
      → Option (Option String)
      → Option AgentAuthorizationDetails
  detail_from (some actions) (some locations) (some resource) (some constraints) (some purpose) =
      if within_25 actions
        && every truthy actions
        && within_25 locations
        && every (is_url r) locations
      then some (record {
        actions = actions;
        locations = locations;
        resource = resource;
        constraints = constraints;
        purpose = purpose;
      })
      else none
  detail_from _ _ _ _ _ = none

  -- `agentActionSchema`.
  unfoldable pub detail_of : Json → Option AgentAuthorizationDetails
  detail_of (obj fs) =
      if claim_is (get_field "type" fs) "agent_action"
      then detail_from (texts_in (get_field "actions" fs)) (texts_in (get_field "locations" fs))
          (text_in (get_field "resource" fs)) (optional_fields (get_field "constraints" fs))
          (optional_text 500 (get_field "purpose" fs))
      else none
  detail_of _ = none

  details_in : Items → Option (List AgentAuthorizationDetails)
  details_in nil = some []
  details_in (cons v vs) = elim (detail_of v) [
    | none ↦ none
    | some d ↦ elim (details_in vs) [ none ↦ none | some ds ↦ some (d ∷ ds) ]
  ]

  abbrev pub counted :
      Option (List AgentAuthorizationDetails) → Option (List AgentAuthorizationDetails)
  counted none = none
  counted (some ds) = if within_25 ds then some ds else none

  -- `z.array(agentActionSchema).min(1).max(25).parse(JSON.parse(value))`.
  unfoldable pub details_of : Option String → Option (List AgentAuthorizationDetails)
  unfolding details_in
  details_of none = none
  details_of (some value) = elim (r.parse_json value) [
    | some (arr vs) ↦ counted (details_in vs)
    | _ ↦ none
  ]

  abbrev pub pushed_from :
      Option AuthorizationParameters
      → Option (List AgentAuthorizationDetails)
      → Option String
      → Option String
      → Option AuthorizationParameters
  pushed_from (some p) (some details) (some purpose) task_id =
      if truthy purpose
        && leb (text_length purpose) 500
        && if_given (λ s. truthy s && leb (text_length s) 200) task_id
      then some (record p {
        authorization_details = some details;
        purpose = some purpose;
        task_id = task_id;
      })
      else none
  pushed_from _ _ _ _ = none

  -- `parSchema.parse`.
  unfoldable pub parse_pushed : Request → Option AuthorizationParameters
  parse_pushed request =
      pushed_from (parse_authorization r request.body)
        (details_of (query_value "authorization_details" request.body))
        (query_value "purpose" request.body) (query_value "task_id" request.body)
