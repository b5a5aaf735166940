-- ===== src/RouteSelection/Binding.antt =====
-- `validate_route_credential`: a route is activated only while its account still stands behind it.
use orichum.Base.{
  String, true, false, Option, some, List, ◌≡◌, ◌↔◌, refl, ◌∙◌, inl, inr, string_eq, nat_eq,
  option_eq, Option-cases, arith,
}
use orichum.Base.Dict.{Dict, lookup}
use orichum.Base.Result.{ok, Result-cases}
use orichum.Base.Text.{
  ◌<>◌, after_first, has_code, is_hex, is_digit, after_first-append, has_code-matches_hex16,
}
use orichum.Account.{Account, is_routing_prefix}
use orichum.Account.Valid.{IsValid}
use orichum.Account.Registry.{find_account}
use orichum.RouteSelection.{Route, Query, Credential, validate_route_credential}
use orichum.RouteSelection.Eligible.{Fits, route_to}

no_slash : (p : String) → is_routing_prefix p ≡ true → has_code b'/' p ≡ false
unfolding is_routing_prefix has_code is_hex is_digit nat_eq
no_slash p h = has_code-matches_hex16 b'/' "oc-r-" p h refl refl

slash_first : (u : String) → after_first b'/' ("/" <> u) ≡ some u
unfolding after_first ◌<>◌ nat_eq
slash_first u = refl

-- The model name behind an account's prefix is found again.
after_first-prefix :
    (p u : String) → is_routing_prefix p ≡ true → after_first b'/' (p <> "/" <> u) ≡ some u
after_first-prefix p u h = after_first-append b'/' p ("/" <> u) (no_slash p h) ∙ slash_first u

module _ (accounts : List Account) (auth_type : Dict String String)
    (resolve : String → String → Option Credential) where
  -- A route of a valid, fitting account that its ID finds, with a provider of known type, passes
  -- exactly when the account's credential file is enabled and carries the account's prefix and
  -- priority.
  pub validate_route_credential_iff :
      (q : Query) (pool : String) (providers fallback : List String) (a : Account) (u t : String)
      → Fits q pool providers fallback a u
      → IsValid a
      → find_account accounts a.id ≡ ok a
      → lookup a.provider auth_type ≡ some t
      → (validate_route_credential accounts auth_type resolve (route_to q pool a u) ≡ ok tt) ↔ (
          (c : Credential) × (resolve a.credential_ref t ≡ some c)
          × (c.disabled ≡ false)
          × (c.prefix ≡ some a.routing_prefix)
          × (c.priority ≡ a.priority))
  unfolding validate_route_credential
  validate_route_credential_iff q pool providers fallback a u t f v found known = (
    λ h. elim (Option-cases (resolve a.credential_ref t)) [
      | inl e ↦ ground (arith, e, found, known)
      | inr (c, e) ↦ (
        c,
        e,
        ground (arith, e, found, known),
        ground (arith, e, found, known),
        ground (arith, e, found, known),
      )
    ],
    λ (c, e, d, p, n). ground (
      arith,
      e,
      found,
      known,
      f.active,
      f.in_pool,
      after_first-prefix a.routing_prefix u v.prefix_ok,
    ),
  )

  -- A route passes only if its account is active and still has the route's provider and pool.
  pub validate_route_credential-bound :
      (r : Route)
      → validate_route_credential accounts auth_type resolve r ≡ ok tt
      → (a : Account) × (find_account accounts r.account_id ≡ ok a)
        × (a.state ≡ "active")
        × (a.provider ≡ r.provider)
        × (a.pool ≡ r.pool)
  unfolding validate_route_credential
  validate_route_credential-bound r h = elim (Result-cases (find_account accounts r.account_id)) [
    | inr (x, e) ↦ ground (arith, e)
    | inl (a, e) ↦ (a, e, ground (arith, e), ground (arith, e), ground (arith, e))
  ]
