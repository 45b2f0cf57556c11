-- ===== src/Upload.antt =====
-- Multipart uploads: the parts that a session records (app/models/upload_session.go) and the number
-- of parts that `InitiateMultipartUpload` announces.
pub mod Parts
pub mod PartLaws
pub mod Chunks
