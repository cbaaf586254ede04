-- ===== src/GitTwin.antt =====
-- internal/gittwin: the twin of a covenant in a git repository. Strings that are taken apart are their
-- bytes, those of a diff their runes.
pub mod Units
pub mod PlatformId
pub mod Webhook
pub mod Anchors
