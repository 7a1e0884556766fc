-- ===== src/Policy.antt =====
-- apps/server/src/lib/policy.ts: the conditions of authorization policies.
-- The names that every JavaScript object inherits, such as `constructor`, are no fields here.
pub mod Laws
use authometry.Common.{
  pos, negsuc, int_eq, ℕ, ◌+◌, String, Bool, true, false, Option, none, some, List, [], ◌∷◌, ◌||◌,
  not, ◌==◌, suc, if◌then◌else◌, str_eq, every,
}
use authometry.Common.Text.{◌+s◌, split, contains, decimal}
use authometry.Json.{Json, str, obj, Items, nil, cons, Fields, end, field, get_field, items}
use authometry.Database.{PolicyCondition, Operator}

-- The facts that a policy reads of a request.
pub record PolicyContext : Type 0 where
  pub environment : String
  pub user_groups : List String
  pub user_email : String
  pub application_id : String
  pub application_slug : String
  pub application_type : String
  pub request_scopes : List String

unfoldable pub context_json : PolicyContext → Json
context_json c = obj (
    field "environment" (str c.environment) (
      field "user"
        (obj
          (field "groups" (Json.arr (items c.user_groups)) (field "email" (str c.user_email) end)))
        (field "application"
          (obj (
            field "id" (str c.application_id)
              (field "slug" (str c.application_slug) (field "type" (str c.application_type) end))))
          (field "request" (obj (field "scopes" (Json.arr (items c.request_scopes)) end)) end))))

items_length : Items → ℕ
items_length nil = 0
items_length (cons v vs) = suc (items_length vs)

-- The element whose index is written `segment`.
element : String → ℕ → Items → Option Json
element segment n nil = none
element segment n (cons v vs) =
    let rest = element segment (n + 1) vs in if str_eq (decimal n) segment then some v else rest

-- `segment in value ? value[segment] : undefined` on an object or an array; `none` is `undefined`.
step_into : Option Json → String → Option Json
unfolding items_length element
step_into none segment = none
step_into (some Json.null) segment = none
step_into (some (Json.bool b)) segment = none
step_into (some (Json.num n)) segment = none
step_into (some (Json.str s)) segment = none
step_into (some (Json.arr vs)) segment =
    if str_eq segment "length"
    then some (Json.num (pos (items_length vs)))
    else element segment 0 vs
step_into (some (Json.obj fs)) segment = get_field segment fs

walk : Option Json → List String → Option Json
unfolding step_into
walk value [] = value
walk value (segment ∷ path) = walk (step_into value segment) path

unfoldable pub get_path : PolicyContext → String → Option Json
unfolding walk context_json
get_path context path = walk (some (context_json context)) (split b'.' path)

-- `===` of values that are not the same object: two arrays or two objects are never equal.
unfoldable pub same : Json → Json → Bool
same Json.null Json.null = true
same Json.null (Json.bool b) = false
same Json.null (Json.num n) = false
same Json.null (Json.str s) = false
same Json.null (Json.arr xs) = false
same Json.null (Json.obj fs) = false
same (Json.bool true) v = is_bool v
  where
    is_bool : Json → Bool
    is_bool (Json.bool b) = b
    is_bool _ = false
same (Json.bool false) v = is_false v
  where
    is_false : Json → Bool
    is_false (Json.bool b) = not b
    is_false _ = false
same (Json.num n) v = is_num v
  where
    is_num : Json → Bool
    is_num (Json.num m) = int_eq n m
    is_num _ = false
same (Json.str s) v = is_str v
  where
    is_str : Json → Bool
    is_str (Json.str t) = str_eq s t
    is_str _ = false
same (Json.arr xs) v = false
same (Json.obj fs) v = false

unfoldable pub is_value : Option Json → Json → Bool
is_value none value = false
is_value (some observed) value = same observed value

-- `items.includes(value)`.
unfoldable pub array_includes : Items → Json → Bool
array_includes nil value = false
array_includes (cons v vs) value = same v value || array_includes vs value

-- `observed.includes(value)` on an array or on a text with a text.
unfoldable pub contains_value : Option Json → Json → Bool
contains_value (some (Json.arr vs)) value = array_includes vs value
contains_value (some (Json.str s)) value = text_in value
  where
    text_in : Json → Bool
    text_in (Json.str t) = contains s t
    text_in _ = false
contains_value _ value = false

mutual
  -- `String(value)`.
  json_text : Json → String
  json_text Json.null = "null"
  json_text (Json.bool true) = "true"
  json_text (Json.bool false) = "false"
  json_text (Json.num (pos n)) = decimal n
  json_text (Json.num (negsuc n)) = "-" +s decimal (suc n)
  json_text (Json.str s) = s
  json_text (Json.arr nil) = ""
  json_text (Json.arr (cons Json.null vs)) = joined vs
  json_text (Json.arr (cons v vs)) = json_text v +s joined vs
  json_text (Json.obj fs) = "[object Object]"

  -- The elements of `[…].join(",")`, each after a comma; `null` is empty.
  joined : Items → String
  joined nil = ""
  joined (cons Json.null vs) = "," +s joined vs
  joined (cons v vs) = "," +s json_text v +s joined vs

unfoldable pub observed_text : Option Json → String
unfolding json_text
observed_text none = "undefined"
observed_text (some v) = json_text v

-- `Array.isArray(value) && value.includes(String(observed))`.
unfoldable pub in_value : Option Json → Json → Bool
in_value observed (Json.arr vs) = array_includes vs (str (observed_text observed))
in_value observed _ = false

test : Operator → Option Json → Json → Bool
unfolding contains_value in_value
test Operator.equals observed value = is_value observed value
test Operator.not_equals observed value = not (is_value observed value)
test Operator.contains observed value = contains_value observed value
test Operator.in_list observed value = in_value observed value

unfoldable pub evaluate_condition : PolicyCondition → PolicyContext → Bool
unfolding test
evaluate_condition condition context =
    test condition.operator (get_path context condition.field) condition.value

unfoldable pub evaluate_all : List PolicyCondition → PolicyContext → Bool
evaluate_all conditions context = every (λ c. evaluate_condition c context) conditions
