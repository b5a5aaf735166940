-- ===== src/Examples.antt =====
-- Sample accounts, routes and documents, and the theorems applied to them.
mod Accounts
mod Gate
mod Handler
mod Tools
mod Proxy
mod Routes
mod Statuses
mod Stacks
mod Documents
mod Sessions
mod Store
mod Served
mod Plans
mod Locks
mod Catalogs
mod Removal
mod Transaction
mod Faults
mod Snapshots
use orichum.Base.{String, none, some, List, [], ◌∷◌, ℕ}
use orichum.Account.{Account}
use orichum.RouteSelection.{Query, Config, Route}

abbrev pub work : Account
work = record {
  id = "oc-a-0123456789abcdef";
  name = "work";
  provider = "anthropic";
  credential_ref = "work.json";
  pool = "team";
  routing_prefix = "oc-r-0123456789abcdef";
  priority = 100;
  state = "active";
  original_prefix = none;
  original_priority = none;
}

abbrev pub home : Account
home = record work {
  id = "oc-a-fedcba9876543210";
  name = "home";
  credential_ref = "home.json";
  routing_prefix = "oc-r-fedcba9876543210";
  priority = 50;
}

abbrev pub query : Query
query = record {
  accounts = home ∷ work ∷ [];
  family = "claude";
  logical_model = "opus";
  config = record {
    models = some (("opus", "claude") ∷ []);
    account_pools = ("team", "anthropic" ∷ []) ∷ [];
    fallback_routes = ("claude", "anthropic" ∷ []) ∷ [];
  };
  allowed_providers = "anthropic" ∷ [];
  locked_account_id = none;
  upstream_by_provider = ("anthropic", "opus-4") ∷ [];
  available_models = none;
  digest = λ a m. a;
}

abbrev pub route_of : String → String → ℕ → Route
route_of id upstream n = record {
  account_id = id;
  provider = "anthropic";
  family = "claude";
  logical_model = "opus";
  upstream_model = upstream;
  claudex_profile = "ocp-0";
  priority = n;
  pool = "team";
}
