-- ===== src/Api.antt =====
-- frontend/src/api/types.ts: the payloads of the backend, over a type `N` of numbers.
pub mod Json
pub mod Risk
pub mod Drafts
pub mod Insight
pub mod Graph
