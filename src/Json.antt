-- ===== src/Json.antt =====
-- JSON values, as the claims, the custom user attributes and the policy contexts hold them.
-- Numbers are integers: the protocol writes whole seconds, and no code here computes with others.
use authometry.Common.{
  ℕ, ℤ, pos, negsuc, int_eq, String, Bool, Option, none, some, List, [], ◌∷◌, if◌then◌else◌, str_eq,
  true, false, not, truthy,
}

mutual
  pub data Json : Type 0 where
    null : Json
    bool : Bool → Json
    num : ℤ → Json
    str : String → Json
    arr : Items → Json
    obj : Fields → Json

  pub data Items : Type 0 where
    nil : Items
    cons : Json → Items → Items

  pub data Fields : Type 0 where
    end : Fields
    field : String → Json → Fields → Fields

-- `value[key]` of an object; `none` is `undefined`.
unfoldable pub get_field : String → Fields → Option Json
get_field k end = none
get_field k (field j v fs) = if str_eq j k then some v else get_field k fs

unfoldable pub items : List String → Items
items [] = nil
items (s ∷ ss) = cons (str s) (items ss)

-- An object under construction: a key may be present with the value `undefined`, `none`.
abbrev pub Claims : Type 0
Claims = List (String × Option Json)

-- `{ ...claims, [k]: v }`.
unfoldable pub set_claim : String → Option Json → Claims → Claims
set_claim k v [] = (k, v) ∷ []
set_claim k v ((j, w) ∷ cs) = if str_eq j k then (k, v) ∷ cs else (j, w) ∷ set_claim k v cs

-- `{ ...claims, ...others }`.
unfoldable pub spread : Claims → Claims → Claims
spread claims [] = claims
spread claims ((k, v) ∷ others) = spread (set_claim k v claims) others

-- `claims[k]`.
unfoldable pub get_claim : String → Claims → Option Json
get_claim k [] = none
get_claim k ((j, v) ∷ cs) = if str_eq j k then v else get_claim k cs

-- JavaScript's truth value of a claim; `undefined` is false.
abbrev pub truthy_claim : Option Json → Bool
truthy_claim none = false
truthy_claim (some null) = false
truthy_claim (some (bool b)) = b
truthy_claim (some (num n)) = not (int_eq n (pos 0))
truthy_claim (some (str s)) = truthy s
truthy_claim (some (arr xs)) = true
truthy_claim (some (obj fs)) = true

-- `claim === s` for a string.
abbrev pub claim_is : Option Json → String → Bool
claim_is (some (str t)) s = str_eq t s
claim_is (some null) s = false
claim_is (some (bool b)) s = false
claim_is (some (num n)) s = false
claim_is (some (arr xs)) s = false
claim_is (some (obj fs)) s = false
claim_is none s = false

-- `typeof claim === "string" ? claim : ""`.
abbrev pub string_claim : Option Json → String
string_claim (some (str t)) = t
string_claim (some null) = ""
string_claim (some (bool b)) = ""
string_claim (some (num n)) = ""
string_claim (some (arr xs)) = ""
string_claim (some (obj fs)) = ""
string_claim none = ""

-- A claim that is a number, and one that is not negative.
abbrev pub integer_claim : Option Json → Option ℤ
integer_claim (some (num n)) = some n
integer_claim (some null) = none
integer_claim (some (bool b)) = none
integer_claim (some (str t)) = none
integer_claim (some (arr xs)) = none
integer_claim (some (obj fs)) = none
integer_claim none = none

abbrev pub number_claim : Option Json → Option ℕ
number_claim (some (num (pos n))) = some n
number_claim (some (num (negsuc n))) = none
number_claim (some null) = none
number_claim (some (bool b)) = none
number_claim (some (str t)) = none
number_claim (some (arr xs)) = none
number_claim (some (obj fs)) = none
number_claim none = none
