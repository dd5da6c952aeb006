-- ===== src/App.antt =====
-- The application layer, src/app.
pub mod LoadBalancer
pub mod Backend
pub mod HttpProxyHandler
pub mod LoadBalancerHandler
pub mod HealthChecker
pub mod RouteTable
