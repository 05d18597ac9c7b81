-- ===== src/Intracom.antt =====
-- The package intracom: topics with consumer groups, and a registry of topics.
pub mod Errors
pub mod Channel
pub mod Policy
pub mod Subscriber
pub mod Broadcast
pub mod Topic
pub mod Registry
