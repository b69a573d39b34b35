-- ===== src/Tests.antt =====
-- Runs of the model on a small installation, and the theorems at concrete inputs.
pub mod Sample
mod Access
mod Sessions
mod Keys
mod Shells
mod Requests
mod Accounts
mod Creations
mod Changes
mod Members
pub mod Reveal
mod Archives
mod Settings
mod Groups
mod Threads
