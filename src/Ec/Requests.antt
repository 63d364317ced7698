-- ===== src/Ec/Requests.antt =====
-- chromium_ec/commands.rs: the requests, as the bytes that are sent and the structs that come back.
-- The structs are packed; those without an attribute have fields of one size.
mod Generic
mod Framework
unfoldable pub use Generic.*
unfoldable pub use Framework.*
