-- ===== src/Tools.antt =====
-- driver/tools: the command-line programs over the library.
pub mod Text
pub mod Args
pub mod Parse
pub mod Common
pub mod Session
pub mod Send
pub mod React
pub mod Dump
pub mod Info
