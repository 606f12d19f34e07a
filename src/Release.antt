-- ===== src/Release.antt =====
-- The scripts that prepare a release: scripts/frogalert-version.mjs,
-- scripts/require-firmware-version-bump.mjs, and scripts/firmware-image.mjs.
pub mod Version
pub mod Order
pub mod Sentinel
pub mod SentinelLaws
