-- ===== src/Server/Nodes.antt =====
-- The state of class Server, and its functions that create and look up nodes.
use modern_opc.Base.{
  ℕ, suc, Bool, false, if◌then◌else◌, Option, none, some, List, pos, Outcome, ok, ◌>>=◌,
}
use modern_opc.Types.NodeId.{NodeId, numeric_node_id, from_node_id}
use modern_opc.Types.Names.{QualifiedName, from_qualified_name}
use modern_opc.Server.Status.{
  UaNodeClass, class_object, class_method, class_variable, is_good, class_eq,
}
use modern_opc.Server.Registry.{Node, Registry, find, emplace}
use modern_opc.Server.Ua.{NewNode, UaArgument, UaVariableAttributes, UaServer}

-- `next` is the address of the next node that std::make_shared makes.
pub record Server (S : Type 0) : Type 0 where
  pub ua : S
  pub is_running : Bool
  pub objects : Registry
  pub methods : Registry
  pub variables : Registry
  pub next : ℕ

-- A shared pointer to a node, or null, and the server afterwards.
abbrev pub Made : Type 0 → Type 0
Made S = Outcome (Option Node × Server S)

module _ {S : Type 0} (U : UaServer S) where
  -- std::make_shared<T>(this, id)
  abbrev pub make_shared : NodeId → Server S → Node × Server S
  make_shared id s = (record { address = s.next; id = id }, record s { next = suc s.next })

  -- objects.emplace(id, ptr); return ptr;
  unfoldable pub keep_object : NodeId → Server S → Made S
  keep_object id s = do
    let (ptr, t) = make_shared id s
    r ← emplace id ptr s.objects
    ok (some ptr, record t { objects = r })

  unfoldable pub keep_method : NodeId → Server S → Made S
  keep_method id s = do
    let (ptr, t) = make_shared id s
    r ← emplace id ptr s.methods
    ok (some ptr, record t { methods = r })

  unfoldable pub keep_variable : NodeId → Server S → Made S
  keep_variable id s = do
    let (ptr, t) = make_shared id s
    r ← emplace id ptr s.variables
    ok (some ptr, record t { variables = r })

  -- UA_Server_readNodeClass and the two tests on its result
  unfoldable pub has_class : UaNodeClass → NodeId → Server S → Outcome Bool
  has_class c id s = do
    ua_id ← from_node_id U.text id
    let (status, node_class) = U.read_node_class s.ua ua_id
    if is_good status then ok (class_eq node_class c) else ok false

  -- Server::getObject
  unfoldable pub get_object : NodeId → Server S → Made S
  unfolding has_class keep_object
  get_object id s = do
    it ← find id s.objects
    elim it [
      | some ptr ↦ ok (some ptr, s)
      | none ↦ do
        here ← has_class class_object id s
        if here then keep_object id s else ok (none, s)
    ]

  -- Server::getMethod
  unfoldable pub get_method : NodeId → Server S → Made S
  unfolding has_class keep_method
  get_method id s = do
    it ← find id s.methods
    elim it [
      | some ptr ↦ ok (some ptr, s)
      | none ↦ do
        here ← has_class class_method id s
        if here then keep_method id s else ok (none, s)
    ]

  -- Server::getVariable
  unfoldable pub get_variable : NodeId → Server S → Made S
  unfolding has_class keep_variable
  get_variable id s = do
    it ← find id s.variables
    elim it [
      | some ptr ↦ ok (some ptr, s)
      | none ↦ do
        here ← has_class class_variable id s
        if here then keep_variable id s else ok (none, s)
    ]

  -- Server::getObjectsFolder
  unfoldable pub get_objects_folder : Server S → Made S
  unfolding get_object
  get_objects_folder s = get_object (numeric_node_id 0 (pos 85)) s

  -- The arguments of the UA_Server_add…Node calls.
  unfoldable pub new_node : NodeId → NodeId → QualifiedName → Outcome NewNode
  new_node requested parent name = do
    r ← from_node_id U.text requested
    p ← from_node_id U.text parent
    ok (record {
      requested = r;
      parent = p;
      reference = U.names.has_component;
      browse_name = from_qualified_name U.text name;
    })

  -- Server::createObject
  unfoldable pub create_object :
      NodeId → NodeId → NodeId → QualifiedName → Option ℕ → Server S → Made S
  unfolding new_node keep_object
  create_object parent requested type name context s = do
    args ← new_node requested parent name
    ua_type ← from_node_id U.text type
    let (status, ua) = U.add_object_node s.ua args ua_type
    if is_good status
        then keep_object requested (record s { ua = U.set_node_context ua args.requested context })
        else ok (none, record s { ua = ua })

  -- Server::createMethod
  unfoldable pub create_method :
      NodeId → NodeId → QualifiedName → List UaArgument → List UaArgument → Server S → Made S
  unfolding new_node keep_method
  create_method obj method name inputs outputs s = do
    args ← new_node method obj name
    let (status, ua) = U.add_method_node s.ua args inputs outputs
    if is_good status
        then keep_method method (record s { ua = ua })
        else ok (none, record s { ua = ua })

  -- Server::createVariable
  unfoldable pub create_variable :
      NodeId → NodeId → NodeId → QualifiedName → UaVariableAttributes → Server S → Made S
  unfolding new_node keep_variable
  create_variable parent requested type name attributes s = do
    args ← new_node requested parent name
    ua_type ← from_node_id U.text type
    let (status, ua) = U.add_variable_node s.ua args ua_type attributes
    if is_good status
        then keep_variable requested (record s { ua = ua })
        else ok (none, record s { ua = ua })

  -- Server::connectVariableDataSource
  unfoldable pub connect_variable_data_source : NodeId → Option ℕ → Server S → Outcome (Server S)
  connect_variable_data_source id src s = do
    ua_id ← from_node_id U.text id
    ok (record s { ua = U.set_node_context (U.set_data_source s.ua ua_id) ua_id src })

  -- Server::connectMethodCallback
  unfoldable pub connect_method_callback : NodeId → Option ℕ → Server S → Outcome (Server S)
  connect_method_callback id callable s = do
    ua_id ← from_node_id U.text id
    ok (record s { ua = U.set_node_context (U.set_method_callback s.ua ua_id) ua_id callable })
