-- ===== src/DavHeaders.antt =====
-- src/davheaders.rs: the request headers of WebDAV. A header arrives as the list of its values; the
-- crate `http` turns one into a text by `to_str`, a parameter. Every failure is the error of the
-- crate `headers`, `Error::invalid`.
pub mod Values
pub mod ETag
pub mod Number
pub mod Timeout
pub mod Server
pub mod IfHeader
