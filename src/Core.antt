-- ===== src/Core.antt =====
-- src/cairndb/core: values, and the codecs that turn them into bytes.
pub mod Value
pub mod Results
pub mod Log
pub mod Decimal
pub mod Sequence
