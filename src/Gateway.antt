-- ===== src/Gateway.antt =====
-- gateway-service: what stands in front of the services.
pub mod RateLimit
pub mod WsProxy
pub mod Proxy
