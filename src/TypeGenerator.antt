-- ===== src/TypeGenerator.antt =====
-- The generator of C++ classes from the data types of a nodeset: TypeGenerator/.
pub mod Ids
pub mod DataTypes
pub mod Order
pub mod Emit
pub mod Classes
pub mod Tests
