-- ===== src/Tests.antt =====
-- The theorems at concrete inputs: users, files and requests such as the service meets.
mod Data
mod Pure
mod Files
mod Requests
mod Handlers
mod Registry
mod Keys
mod Operations
