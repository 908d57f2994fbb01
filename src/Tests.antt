-- ===== src/Tests.antt =====
-- Runs of the model at concrete inputs, and the theorems applied to them.
mod Fixture
mod Access
mod Tokens
mod Limits
mod Usage
mod Saving
mod Protocol
mod Bearer
mod Invites
mod Challenges
mod Relay
mod Authorize
mod Admin
mod Config
