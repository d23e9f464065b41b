-- ===== src/WhatsApp/Transition.antt =====
-- domain/whatsapp/conversation-transition.matrix.ts: who may transition a conversation, and to
-- what. The branches of `resolveConversationTransition` stand in Menu, Quote and Attendance, and
-- Matrix joins them.
pub mod Actors
pub mod Guards
pub mod Menu
pub mod Quote
pub mod Attendance
pub mod Matrix
pub mod Invariant
pub mod Laws
pub mod Custody
pub mod Progress
