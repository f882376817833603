-- ===== src/Media.antt =====
-- The media of users: `MediaService` of src/modules/media/media.service.ts, one child for each group
-- of its methods.
pub mod Access
pub mod Repository
pub mod Semaphore
pub mod Acl
pub mod Limits
pub mod SignedUrl
pub mod Upload
pub mod Read
pub mod Share
pub mod Delete
pub mod Account
pub mod Registry
