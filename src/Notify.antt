-- ===== src/Notify.antt =====
-- src/notify: the delivery policy of a scope and the outbox of its alerts, over their tables.
pub mod Tables
pub mod Policy
pub mod Outbox
