-- ===== src/Auth.antt =====
-- application/use-cases/auth and the repositories that it uses: sessions that a login opens and a
-- refresh token renews, passwords that are changed by a link or by their owner, and the request of a
-- user for a link.
pub mod Rows
pub mod Identifiers
pub mod Accounts
pub mod Challenges
pub mod Sessions
pub mod Passwords
pub mod Tokens
pub mod Login
pub mod Requests
pub mod RequestAnswers
pub mod LoginNames
pub mod LoginFound
pub mod LoginSession
pub mod Revocation
pub mod Links
pub mod Rotation
mod TestData
mod Tests
mod LoginTests
