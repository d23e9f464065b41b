-- ===== src/Routing.antt =====
-- domain/routing: the routes of passengers.
pub mod Route
pub mod Approval
pub mod Missing
mod Tests
