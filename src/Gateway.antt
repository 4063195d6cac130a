-- ===== src/Gateway.antt =====
-- ngenorca-gateway: the authentication of requests, the routing of tasks, the quality gate, the paths of the
-- workspace, the rate limiter, the retry loop of the providers, and the session manager.
pub mod Auth
pub mod Quality
pub mod RateLimit
pub mod Retry
pub mod Routing
pub mod Sessions
pub mod Workspace
