-- ===== src/Spaces.antt =====
-- src/spaces: the service, join requests and invites.
pub mod Members
pub mod Keys
pub mod Requests
pub mod Invites
pub mod Takedown
pub mod Comments
pub mod Deletion
pub mod Sample
pub mod Tests
