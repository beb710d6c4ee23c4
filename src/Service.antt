-- ===== src/Service.antt =====
-- services/nb-bond-api/src: what the API process keeps and derives beside the database.
pub mod LiveEvents
pub mod Health
pub mod Operations
pub mod Auth
