-- ===== src/Lib.antt =====
-- A verification library of ModernOPC, a C++17 wrapper of the OPC UA stack open62541.
--
-- The program has a server side, a client side and a code generator.
--   Class Variant holds one value of open62541; class NodeId names a node. Class Server creates
--     and looks up nodes, keeps each in one of three maps, and gets calls back from open62541 for
--     methods and data sources. Class Client connects to a server, resolves namespaces and node
--     ids, and reads, writes, calls and browses. The TypeGenerator reads the data types of a
--     nodeset and writes C++ classes for them, each after the classes of its fields.
--
-- Which file models what:
--   Base: lists over the native numbers, integers, byte strings, decimal text, and Outcome, what a
--     C++ call ends in: a value, an exception, or a fault (undefined behaviour or a failed
--     assertion).
--   Types/Guid, Types/NodeId, Types/Names: modernopc/include/modernopc/types and
--     modernopc/src/types. node_id_eq is NodeId::operator==, get_hash getHash, from_node_id and
--     from_ua_node_id fromNodeId and fromUaNodeId, print_node_id operator<<.
--   Variant/Access: Variant::get, is_a and toUAVariant (modernopc/include/modernopc/Variant.h,
--     DataType.h, modernopc/src/Variant_get.cpp). Variant/Compare: Variant::operator== and
--     CMP_TABLE. Variant/Ownership: the constructors, the destructor and the assignments over a
--     memory of cells (modernopc/src/Variant.cpp); Ownership/Steps runs programs of them.
--   Variant/Shown: isScalar, isEmpty and toString.
--   Server/Status: getNodeType (modernopc/src/nodes/Node.cpp) and class StatusCode.
--     Server/Registry, Server/Nodes, Server/Lookup: the maps of class Server and the functions
--     over them (modernopc/src/Server.cpp). Server/Namespaces: getNamespaceIndex,
--     translatePathToNodeId, internalRead, internalWrite, and VariableNode::read and write
--     (modernopc/src/nodes/VariableNode.cpp). A shared pointer is the address of its node.
--     Server/Callbacks: createMethod, getMethod, MethodNode::bindCallable
--     (modernopc/include/modernopc/nodes/MethodNode.h) and the callback, over who owns nodes and
--     functions. Server/Sources: VariableNode::connectCallback and the callbacks for data sources;
--     there connectCallback and bindCallable are taken statement by statement. A callback is given
--     the address in a node's context in one world and may follow it in a later one.
--     Server/Running: the constructors, loadNodeset, and run and stop in two threads.
--     Server/Attributes: class Node (modernopc/src/nodes/Node.cpp). Server/Cleanup: ~Server and
--     cleanupCustomTypes over a heap.
--   Methods: MethodTraits, Call and Server::internalMethodCallback
--     (modernopc/include/modernopc/methods).
--   Objects: modernopc/include/modernopc/nodes/ObjectNode.h, VariableAttributes.h and
--     events/BaseEventType.h, modernopc/src/nodes/ObjectNode.cpp.
--   Client: modernopc/src/client/Client.cpp; Client/Nodesets: loadNodeset, ClientJson.cpp and
--     modernopc/src/Variant_fromJson.cpp; Client/Outputs: the outputs of call as owners of a
--     memory; Client/Unresolved: class UnresolvedNodeId; Client/Logging: class Logger. A call that
--     changes the client gives the client afterwards also when it throws.
--   TypeGenerator/Ids, DataTypes, Order, Emit, Classes: TypeGenerator/NodeId.cpp, conversion.h,
--     backend.cpp, main.cpp, TypeGenerator.h and TypeGenerator/types.
--
-- Parameters: open62541 (UaText, UaVariants, UaEqual, UaKinds, VariantMemory, UaServer, UaEvents,
--   UaAttributes, UaStart, UaRun, UaEnd, UaClient, UaLoader), spdlog (SpdLog) and the hash
--   functions of the standard library (StdHash). What the code relies on of them is stated in the
--   records ReadsCString, AreVariants, DecideEqual, KindsInOrder, KeepsContexts and KeepsTypes and
--   in the fields of VariantMemory, and the Tests modules have functions for which it holds. Of
--   the nodeset loader, the nodes or the data types that it hands over are an argument. The
--   functions that a user binds to methods and data sources are arguments.
--
-- Fuel: buildOrder calls itself along the fields of the data types; the model has fuel, and a fuel
--   above the rank of a type is enough when the types can be ranked. cleanupCustomTypes follows a
--   chain of arrays in the heap, and a fuel of the number of arrays is enough. All other loops are
--   by recursion on a list or on a number that the loop counts down.
--
-- Not modelled: fromString, which nothing calls; the extensions of nodes that the nodeset loader
--   hands over, which nothing reads; log output of open62541 and of the type generator; the tests,
--   tutorials and benchmarks, which use the library.
pub mod Base
pub mod Types
pub mod Variant
pub mod Server
pub mod TypeGenerator
pub mod Methods
pub mod Client
pub mod Objects
