-- ===== src/Catalog.antt =====
-- internal/vpscatalog: the provider catalog of a VPS, and the service that issues its artifacts.
pub mod Types
pub mod Messages
pub mod Clone
pub mod Library
pub mod Validation
pub mod Service
pub mod Offers
pub mod Samples
mod Examples
