-- ===== src/Access.antt =====
-- app/api/v1/dependencies.py: who may use the proxy. One child for each dependency of the routes.
pub mod IpFilter
pub mod ApiKeys
pub mod RateLimits
pub mod Csrf
