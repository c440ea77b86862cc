-- ===== src/Tests.antt =====
-- The theorems at concrete inputs.
mod Limiting
mod Tooling
mod Supervision
mod Providers
mod Tokens
mod Rotating
mod Stores
mod Weighing
mod Keys
mod Accounts
mod Sources
mod Configuring
mod Answers
mod Caching
