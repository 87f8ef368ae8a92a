-- ===== src/Tests.antt =====
-- Runs of the definitions on concrete inputs, and each theorem applied to one.
mod Server
mod Conversations
mod Documents
mod Export
mod Sessions
mod Names
mod Secrets
mod Files
mod Decisions
mod Keys
mod Residues
mod Shutdown
mod Runs
mod Loops
mod Reports
mod Installing
