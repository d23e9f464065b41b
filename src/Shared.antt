-- ===== src/Shared.antt =====
-- shared/utils: helpers of all parts of the API.
pub mod Phone
mod Tests
