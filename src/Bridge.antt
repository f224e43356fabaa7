-- ===== src/Bridge.antt =====
-- integrations/telegram/fasttrack_file_bridge.py: from a Telegram message to a pair of files.
pub mod Errors
pub mod Patterns
pub mod Validation
pub mod Classify
pub mod SignalMeta
pub mod Fingerprint
pub mod Action
pub mod Files
pub mod Publisher
pub mod Publish
pub mod Matcher
pub mod Handler
pub mod Tests
