-- ===== src/WhatsApp.antt =====
-- domain/whatsapp: conversations, their transitions and the automation that answers them.
pub mod Constants
pub mod Transition
pub mod Automation
pub mod Inbound
pub mod Outbox
pub mod Commands
mod TransitionTests
mod AutomationTests
mod AnswerTests
mod OutboxTests
mod ReconcileTests
mod CommandTests
