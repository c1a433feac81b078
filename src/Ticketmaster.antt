-- ===== src/Ticketmaster.antt =====
-- adapters/ticketmaster.py, a module for each part of the adapter.
pub mod TokenBucket
pub mod Request
pub mod Cache
pub mod Invalidation
pub mod Commerce
pub mod PlanUpdate
pub mod Token
pub mod Client
