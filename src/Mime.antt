-- ===== src/Mime.antt =====
-- dcc/mime.go and dcc/mime_multipart.go: the decoders for transfer encodings.
pub mod Quoted
pub mod Base64
pub mod Context
pub mod Headers
