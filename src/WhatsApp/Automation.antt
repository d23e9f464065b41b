-- ===== src/WhatsApp/Automation.antt =====
-- domain/whatsapp/whatsapp-automation-flow.ts: what the automation answers to a customer's message.
pub mod Types
pub mod Contacts
pub mod Messages
pub mod Masking
pub mod Menus
pub mod Plan
pub mod Actions
pub mod Execution
pub mod Safety
pub mod Acceptance
pub mod Accepted
pub mod Answers
