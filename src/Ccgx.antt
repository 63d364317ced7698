-- ===== src/Ccgx.antt =====
-- framework_lib/src/ccgx/mod.rs: versions of PD controller firmware and the metadata rows of its
-- images. The parser of whole files (ccgx/binary.rs) is the child `Binary`.
pub mod Versions
pub mod Metadata
pub mod Binary
pub mod Device
