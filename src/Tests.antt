-- ===== src/Tests.antt =====
-- The theorems at concrete inputs.
mod Data
mod Bucket
mod Keys
mod Resources
mod Coder
mod Stores
mod Writes
mod Sessions
mod Login
mod Pages
mod Dialogs
mod Lists
mod Overlap
mod Editors
mod Bindings
mod Moves
