-- ===== src/Service/Auth/Laws.antt =====
-- auth.ts: which requests pass both gates.
use mathlib.Core.Path.{subst}
use cbdc_tokenization_sandbo.Prelude.{
  Bool-cases, List, Option, Option-cases, Result, Result-cases, Text, [], codes, get_or, inl, inr,
  ok, refl, some, sym, text_eq, text_eq_iff, true, ◌∷◌, ◌≡◌, ◌⊎◌,
}
use cbdc_tokenization_sandbo.Database.Table.{has_row}
use cbdc_tokenization_sandbo.Service.Auth.{
  auth_middleware, authorize, entra, extract_bearer, forbidden, has_role, missing_token, next,
  require_any_role, unauthorized,
}

-- The role is one of the list.
abbrev pub IsIn : Text → List Text → Type 0
IsIn role [] = ⊥
IsIn role (r ∷ roles) = (r ≡ role) ⊎ IsIn role roles

has_row-IsIn :
    (role : Text) (roles : List Text)
    → has_row (λ (r : Text). text_eq r role) roles ≡ true
    → IsIn role roles
unfolding has_row
has_row-IsIn role [] e = absurd cc
has_row-IsIn role (r ∷ roles) e = elim (Bool-cases (text_eq r role)) [
  | inl same ↦ inl ((text_eq_iff r role).0 same)
  | inr other ↦
      let rest : has_row (λ (r : Text). text_eq r role) roles ≡ true = rw (other) at e in
      inr (has_row-IsIn role roles rest)
]

has_role-shared :
    (allowed roles : List Text)
    → has_role allowed roles ≡ true
    → (role : Text) × IsIn role allowed × IsIn role roles
unfolding has_role has_row
has_role-shared allowed [] e = absurd cc
has_role-shared allowed (r ∷ roles) e =
    elim (Bool-cases (has_row (λ (a : Text). text_eq a r) allowed)) [
      | inl found ↦ (r, has_row-IsIn r allowed found, inl refl)
      | inr other ↦
          let rest : has_role allowed roles ≡ true = rw (other) at e in
          let (role, in_allowed, in_roles) = has_role-shared allowed roles rest in
          (role, in_allowed, inr in_roles)
    ]

next-injective : {a b : List Text} → next a ≡ next b → a ≡ b
next-injective e = cc

-- The second gate.
require_any_role-shared :
    (allowed given roles : List Text)
    → require_any_role entra allowed given ≡ next roles
    → (roles ≡ given) × ((role : Text) × IsIn role allowed × IsIn role roles)
unfolding require_any_role
require_any_role-shared allowed given roles e = elim (Bool-cases (has_role allowed given)) [
  | inl shares ↦
      let same : next given ≡ next roles = rw (shares) at e in
      let is_given = next-injective same in
      (
        sym is_given,
        subst (λ rs. (role : Text) × IsIn role allowed × IsIn role rs) is_given
            (has_role-shared allowed given shares),
      )
  | inr refused ↦ let impossible : forbidden ≡ next roles = rw (refused) at e in absurd cc
]

-- With Entra, a request that passes both gates has a header with a bearer token, not empty, that the
-- library verifies, and a role of the token's claim is one of those that the route allows.
pub authorize-entra :
    (verify : Text → Result (Option (List Text))) (allowed : List Text) (header : Option Text)
    (roles : List Text)
    → authorize verify entra allowed header ≡ next roles
    → (token : Text) × (claim : Option (List Text)) × (role : Text) × (extract_bearer header
        ≡ some token)
      × (verify token ≡ ok claim)
      × (roles ≡ get_or claim [])
      × IsIn role allowed
      × IsIn role roles
unfolding authorize auth_middleware
authorize-entra verify allowed header roles e = elim (Option-cases (extract_bearer header)) [
  | inl missing ↦
      let impossible : unauthorized missing_token ≡ next roles = rw (missing) at e in absurd cc
  | inr (token, bears) ↦ elim (Result-cases (verify token)) [
    | inl (error, invalid) ↦
        let impossible : unauthorized (codes "Invalid token") ≡ next roles =
          rw (bears, invalid) at e in
        absurd cc
    | inr (claim, valid) ↦
        let gate : require_any_role entra allowed (get_or claim []) ≡ next roles =
          rw (bears, valid) at e in
        let (is_claim, (role, in_allowed, in_roles)) =
          require_any_role-shared allowed (get_or claim []) roles gate in
        (token, claim, role, bears, valid, is_claim, in_allowed, in_roles)
  ]
]
