-- ===== src/Documents.antt =====
-- domain/documents: the requests for documents, their items and their files.
pub mod Workflow
pub mod Review
pub mod Derived
mod Tests
