-- ===== src/Playback.antt =====
-- backend/apps/playback/models.py and ingest.py: the life of a media asset. What the video provider
-- answers is an argument. An illegal transition is a validation error.
pub mod Lifecycle
pub mod Active
pub mod OneActive
pub mod Polled
pub mod Reconciled
pub mod Takedowns
pub mod Assets
pub mod Polling
pub mod Reconciling
pub mod Takedown
pub mod ObjectKeys
pub mod Uploads
pub mod Media
