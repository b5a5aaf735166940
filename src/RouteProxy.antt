-- ===== src/RouteProxy.antt =====
-- integrations/common/route_proxy.py: the proxy that recovers a failed request once, on a route of
-- the same model family.
pub mod Paths
pub mod Sse
pub mod Bodies
pub mod Policy
pub mod World
pub mod Upstream
pub mod Response
pub mod Handler
