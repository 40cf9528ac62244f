-- ===== src/Server.antt =====
-- class Server: modernopc/include/modernopc/Server.h and modernopc/src/Server.cpp. The server of
-- open62541 is a parameter, a state with the functions that the class calls.
pub mod Status
pub mod Registry
pub mod Ua
pub mod Nodes
pub mod Lookup
pub mod Callbacks
pub mod Sources
pub mod Attributes
pub mod Running
pub mod Cleanup
pub mod Namespaces
pub mod Tests
