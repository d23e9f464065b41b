-- ===== src/WhatsApp/Outbox.antt =====
-- infra/integrations/whatsapp/whatsapp-automation-event.store.ts, the parts of
-- prisma-whatsapp.repository.ts on the same table and the retention: the queue of events that the
-- automation works off.
pub mod Rows
pub mod Claim
pub mod Settle
pub mod Messages
pub mod Complete
pub mod Report
pub mod Retention
pub mod Reconcile
pub mod Order
pub mod Updates
pub mod Steps
pub mod Ends
pub mod Decisions
pub mod Runs
pub mod Reach
pub mod Repeat
