-- ===== src/Types.antt =====
-- The value types of modernopc/include/modernopc/types and modernopc/src/types.
pub mod UaText
pub mod Guid
pub mod NodeId
pub mod Names
pub mod Tests
