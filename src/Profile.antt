-- ===== src/Profile.antt =====
-- domain/profile: the picture of a profile.
pub mod Bytes
pub mod Image
pub mod Webp
pub mod Inspect
pub mod Answers
pub mod RoundTrip
mod Tests
