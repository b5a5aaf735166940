-- ===== src/Examples/Proxy.antt =====
-- The theorems on the proxy's paths, policies and buffers, at small inputs.
use orichum.Base.{ℕ, String, ◌≡◌, ◌↔◌, refl, some, [], ◌∷◌, string_eq, nat_eq, In}
use orichum.Base.Result.{Result, ok}
use orichum.RouteProxy.Policy.{
  Binding, Session, routes_of, request_policy_for, request_policy_for_iff,
}
use orichum.Examples.{route_of}

abbrev binding : Binding
binding = record {
  primary = route_of "oc-a-0123456789abcdef" "oc-r-0123456789abcdef/opus-4" 100;
  fallbacks = route_of "oc-a-fedcba9876543210" "oc-r-fedcba9876543210/opus-4" 50 ∷ [];
}

abbrev session : Session
session = record { bindings = binding ∷ binding ∷ []; leanctx_profile = "lean" }

abbrev load : String → Result ℕ Session
load id = ok session

abbrev model : String
model = "oc-r-0123456789abcdef/opus-4"

request_policy_for_iff_example :
    (request_policy_for load (some "oc-s-0123456789abcdef") model
      ≡ ok (some (routes_of binding), "lean"))
    ↔ (((b : Binding) × In b session.bindings
          × (b.primary.upstream_model ≡ model)
          × (routes_of b ≡ routes_of binding))
        × ((b : Binding)
            → In b session.bindings
            → b.primary.upstream_model ≡ model
            → routes_of b ≡ routes_of binding))
request_policy_for_iff_example =
    request_policy_for_iff load "oc-s-0123456789abcdef" model session (routes_of binding) refl
