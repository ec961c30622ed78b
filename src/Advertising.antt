-- ===== src/Advertising.antt =====
-- backend/apps/advertising/services.py: reward intents and the grant of a verified reward. A verified
-- callback is an argument: its signature is checked before this code.
pub mod Grants
pub mod Replays
pub mod Intents
pub mod Status
pub mod Rewards
