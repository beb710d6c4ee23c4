-- ===== src/Service/Auth.antt =====
-- auth.ts: who may call the API. The verification of a token (`jose`) is a parameter: the claim
-- `roles` of its payload, if that is an array, or an error.
pub mod Laws
use cbdc_tokenization_sandbo.Prelude.{
  Bool, List, Option, Result, Text, [], case_option, case_result, codes, drop, get_or,
  if◌then◌else◌, map, none, not, some, take, text_eq, to_lower_case, true, ℕ, ◌==◌, ◌∷◌,
}
use cbdc_tokenization_sandbo.Database.Schema.{is_empty_text}
use cbdc_tokenization_sandbo.Database.Table.{has_row, select_rows}
use cbdc_tokenization_sandbo.Parsing.{trim}

abbrev pub add_to_first : ℕ → List Text → List Text
add_to_first c [] = (c ∷ []) ∷ []
add_to_first c (part ∷ parts) = if c == b',' then [] ∷ part ∷ parts else (c ∷ part) ∷ parts

-- `value.split(',')`: the parts, of which there is at least one.
unfoldable pub split_commas : Text → List Text
split_commas [] = [] ∷ []
split_commas (c ∷ text) = add_to_first c (split_commas text)

unfoldable pub parse_role_list : Text → List Text
unfolding split_commas
parse_role_list value =
    select_rows (λ (part : Text). not (is_empty_text part)) (map trim (split_commas value))

-- `NB_BOND_API_AUTH_MODE`
pub data AuthMode : Type 0 where
  no_auth entra : AuthMode

-- The gate of a request: it goes on with its roles, or is answered.
pub data Gate : Type 0 where
  next : List Text → Gate
  unauthorized : Text → Gate
  forbidden : Gate

-- A request that goes on meets the next gate with its roles.
abbrev pub and_roles : Gate → (List Text → Gate) → Gate
and_roles (next roles) gate = gate roles
and_roles (unauthorized detail) gate = unauthorized detail
and_roles forbidden gate = forbidden

unfoldable pub extract_bearer : Option Text → Option Text
extract_bearer none = none
extract_bearer (some header) =
    let token = trim (drop 7 header) in
    if is_empty_text header
    then none
    else if not (text_eq (to_lower_case (take 7 header)) (codes "bearer "))
    then none
    else if is_empty_text token
    then none
    else some token

abbrev pub missing_token : Text
missing_token = codes "Missing Authorization: Bearer <token>"

-- `requestRoles(res).some((role) => allowed.includes(role))`
unfoldable pub has_role : List Text → List Text → Bool
has_role allowed roles =
    has_row (λ (role : Text). has_row (λ (a : Text). text_eq a role) allowed) roles

unfoldable pub is_operator_request : AuthMode → List Text → List Text → Bool
unfolding has_role
is_operator_request no_auth operator_roles roles = true
is_operator_request entra operator_roles roles = has_role operator_roles roles

unfoldable pub require_any_role : AuthMode → List Text → List Text → Gate
unfolding has_role
require_any_role no_auth allowed roles = next roles
require_any_role entra allowed roles = if has_role allowed roles then next roles else forbidden

module _ (verify : Text → Result (Option (List Text))) where
  unfoldable pub auth_middleware : AuthMode → Option Text → Gate
  unfolding extract_bearer
  auth_middleware no_auth header = next []
  auth_middleware entra header =
      case_option (extract_bearer header) (unauthorized missing_token) (λ token.
        case_result (verify token) (λ _. unauthorized (codes "Invalid token"))
          (λ roles. next (get_or roles [])))

  -- The two gates in the order in which they are mounted.
  unfoldable pub authorize : AuthMode → List Text → Option Text → Gate
  unfolding auth_middleware require_any_role
  authorize mode allowed header =
      and_roles (auth_middleware mode header) (require_any_role mode allowed)
