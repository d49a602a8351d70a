-- ===== src/Tests.antt =====
-- Runs of the definitions and instances of the theorems at concrete inputs, one child for each part.
pub mod Schemas
pub mod Retries
pub mod Streams
pub mod Routes
pub mod Accesses
pub mod Services
pub mod Records
pub mod Ledgers
pub mod Adapters
pub mod Gateways
pub mod Endpoints
pub mod Catalogs
