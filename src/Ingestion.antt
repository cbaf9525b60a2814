-- ===== src/Ingestion.antt =====
-- The operations of backend/app/ingestion/service.py, each in a child.
pub mod Enqueue
pub mod Lease
pub mod Redrive
pub mod Listing
