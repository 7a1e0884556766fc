-- ===== src/Policy/Laws.antt =====
-- What policy conditions mean.
use authometry.Common.{◌≡◌, ap, String, List, [], ◌∷◌, ◌||◌, refl, not, str_eq, includes}
use authometry.Common.Text.{split}
use authometry.Json.{Json, str, items, get_field}
use authometry.Database.{PolicyCondition, Operator}
use authometry.Policy.{
  PolicyContext, context_json, get_path, same, is_value, array_includes, contains_value, in_value,
  observed_text, evaluate_condition,
}

array_includes-items :
    (ss : List String) (s : String) → array_includes (items ss) (str s) ≡ includes ss s
unfolding array_includes same items
array_includes-items [] s = refl
array_includes-items (t ∷ ss) s = ap (λ b. str_eq t s || b) (array_includes-items ss s)

abbrev pub condition : String → Operator → Json → PolicyCondition
condition field operator value = record { field = field; operator = operator; value = value }

-- The conditions that policies are written with mean membership of the user's groups, a listed
-- email address, membership of the requested scopes, and the application's type.
pub condition-Meaning :
    (c : PolicyContext) (s : String) (ss : List String)
    → (evaluate_condition (condition "user.groups" Operator.contains (str s)) c
        ≡ includes c.user_groups s)
      × (evaluate_condition (condition "user.email" Operator.in_list (Json.arr (items ss))) c
          ≡ includes ss c.user_email)
      × (evaluate_condition (condition "request.scopes" Operator.contains (str s)) c
          ≡ includes c.request_scopes s)
      × (evaluate_condition (condition "application.type" Operator.not_equals (str s)) c
          ≡ not (str_eq c.application_type s))
unfolding evaluate_condition get_field items get_path context_json contains_value in_value is_value
    same split observed_text
condition-Meaning c s ss = (
  array_includes-items c.user_groups s,
  array_includes-items ss c.user_email,
  array_includes-items c.request_scopes s,
  refl,
)
