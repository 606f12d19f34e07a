-- ===== src/Flasher.antt =====
-- site/flasher-state.js and site/isp-entry-guide.js: the decisions of the flasher page.
pub mod State
pub mod Binding
pub mod Entry
pub mod EntryPaths
