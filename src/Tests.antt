-- ===== src/Tests.antt =====
-- Runs of the code at concrete inputs, over a small server and small codecs.
pub mod Server
pub mod Codecs
pub mod World
pub mod Database
pub mod Service
pub mod Reading
pub mod Accounts
pub mod Auth
pub mod Bucket
pub mod Api
pub mod Dashboard
pub mod Routes
pub mod Enrolment
pub mod Erasure
pub mod Origin
pub mod Listing
pub mod Tree
pub mod Uploads
