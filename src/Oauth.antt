-- ===== src/Oauth.antt =====
-- internal/oauthserver: the authorization server of the Relay.
pub mod State
pub mod Platform
pub mod Resource
pub mod Access
pub mod Cleanup
pub mod Snapshot
pub mod Persist
pub mod Token
pub mod Device
pub mod Authorize
pub mod Grant
pub mod Revoke
pub mod Policy
pub mod Change
pub mod Admin
pub mod Register
pub mod Invite
pub mod Challenge
