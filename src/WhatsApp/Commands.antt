-- ===== src/WhatsApp/Commands.antt =====
-- prisma-whatsapp.repository.ts, `transition`: a command of a user, of the webhook or of the system
-- changes a stored conversation, once for each command id and for the version that it expects.
pub mod Rows
pub mod Checks
pub mod Quotes
pub mod Change
pub mod Write
pub mod Store
pub mod Stored
pub mod Carried
pub mod Refinement
pub mod Repeat
pub mod Invariant
