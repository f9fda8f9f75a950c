-- ===== src/Canonical.antt =====
-- cpp/src/canonical.h: the RFC 8785 bytes of a JSON document, over which signatures are made.
-- A byte is a number below 256. SHA-256 is OpenSSL's and is not modelled.
pub mod Utf8
pub mod Strings
pub mod Numbers
pub mod Document
mod Tests
