-- ===== src/Proxy.antt =====
-- app/api/v1/routes/proxy.py, the reverse proxy.
pub mod Tokens
pub mod Tracking
pub mod Backend
pub mod Routing
pub mod Endpoint
pub mod Federation
pub mod AutoModel
pub mod Request
