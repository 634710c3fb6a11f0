-- ===== src/Profiles.antt =====
-- pkg/profiles: detection of the profile of an entry, and the rules of the profiles.
pub mod Detector
pub mod Rules
pub mod Manager
pub mod Tests
