-- ===== src/Library.antt =====
-- library.py
pub mod Tables
pub mod State
pub mod Marker
pub mod Spool
pub mod Activation
pub mod Install
pub mod Files
pub mod Publish
pub mod Removal
pub mod Reconcile
pub mod Cleanup
pub mod Protection
pub mod Withdrawing
pub mod Staging
pub mod Tokens
pub mod Preserved
pub mod Calls
pub mod Inversion
pub mod Coherence
pub mod Reconciled
pub mod Pending
pub mod Resumption
pub mod Revisions
pub mod Pages
pub mod Stored
pub mod Progress
