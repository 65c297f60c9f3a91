-- ===== src/Names.antt =====
-- The checked D-Bus names of src/bus/mod.rs.
pub mod Chars
pub mod Counter
pub mod CStr
pub mod Tail
pub mod Loop
pub mod ObjectPath
pub mod InterfaceName
pub mod BusName
pub mod MemberName
pub mod Pointer
mod Tests
mod UnitTests
