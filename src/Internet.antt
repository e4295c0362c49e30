-- ===== src/Internet.antt =====
-- internal/pkg/internet: mobile data connections, their default routes and their saved state.
pub mod Route
pub mod Netlink
pub mod Plan
pub mod Takeover
pub mod Stale
pub mod RouteState
pub mod ConnectionState
pub mod AlwaysOn
pub mod Apn
pub mod Recovery
pub mod Bearer
pub mod Profile
