-- ===== src/Server/Callbacks/Steps.antt =====
-- Programs of createMethod, getMethod, bindCallable and dropped pointers, as steps of a world.
use modern_opc.Base.{
  ℕ, zero, ◌≡◌, ◌⊎◌, Bool, true, false, Option, none, some, List, [], ◌∷◌, ok, get_elem?,
}
use modern_opc.Types.NodeId.{NodeId, IsNodeId, UaNodeId, UaIdentifier, ua_numeric, from_node_id}
use modern_opc.Types.Names.{QualifiedName}
use modern_opc.Methods.{Callable}
use modern_opc.Server.Status.{is_good, class_eq, class_method}
use modern_opc.Server.Registry.{Node, find}
use modern_opc.Server.Ua.{NewNode, UaArgument, UaServer}
use modern_opc.Server.Callbacks.{World, drop_pointer, bind_callable, create_and_hold, get_and_hold}

-- open62541 picks the id of a node that is asked for under a numeric id of 0.
abbrev pub is_picked : UaIdentifier → Bool
is_picked (ua_numeric zero) = true
is_picked _ = false

-- What class Server relies on of the contexts of open62541: a context that is set on a node that
-- exists is read back, and the other nodes keep theirs; a method that was added is a method without a
-- context; a node whose class is read as METHOD is a method. Nothing is said of the contexts of
-- objects and variables.
pub record KeepsContexts {S : Type 0} (U : UaServer S) : Type 0 where
  pub context : S → UaNodeId → Option ℕ
  pub known : S → UaNodeId → Bool
  pub is_method : S → UaNodeId → Bool
  pub method-known : (s : S) (u : UaNodeId) → is_method s u ≡ true → known s u ≡ true
  pub context-set :
      (s : S) (u : UaNodeId) (c : Option ℕ)
      → known s u ≡ true
      → context (U.set_node_context s u c) u ≡ c
  pub context-set_other :
      (s : S) (u v : UaNodeId) (c : Option ℕ)
      → (v ≡ u) ⊎ (context (U.set_node_context s u c) v ≡ context s v)
  pub method-set :
      (s : S) (u v : UaNodeId) (c : Option ℕ)
      → is_method (U.set_node_context s u c) v ≡ is_method s v
  pub context-callback :
      (s : S) (u v : UaNodeId) → context (U.set_method_callback s u) v ≡ context s v
  pub method-callback :
      (s : S) (u v : UaNodeId) → is_method (U.set_method_callback s u) v ≡ is_method s v
  pub known-source :
      (s : S) (u v : UaNodeId) → known s v ≡ true → known (U.set_data_source s u) v ≡ true
  pub context-add :
      (s : S) (n : NewNode) (ins outs : List UaArgument) (v : UaNodeId)
      → ((context (U.add_method_node s n ins outs).1 v ≡ context s v)
          × (is_method (U.add_method_node s n ins outs).1 v ≡ is_method s v))
        ⊎ ((v ≡ n.requested) × (context (U.add_method_node s n ins outs).1 v ≡ none))
  pub method-add :
      (s : S) (n : NewNode) (ins outs : List UaArgument) (v : UaNodeId)
      → is_method s v ≡ true
      → is_method (U.add_method_node s n ins outs).1 v ≡ true
  pub add-method :
      (s : S) (n : NewNode) (ins outs : List UaArgument)
      → is_good (U.add_method_node s n ins outs).0 ≡ true
      → is_picked n.requested.identifier ≡ false
      → is_method (U.add_method_node s n ins outs).1 n.requested ≡ true
  pub read-method :
      (s : S) (u : UaNodeId)
      → is_good (U.read_node_class s u).0 ≡ true
      → class_eq (U.read_node_class s u).1 class_method ≡ true
      → is_method s u ≡ true

-- The calls. createMethod is called for an id that the map does not hold; bindCallable and a
-- drop need a pointer that the user holds.
pub data Action : Type 0 where
  creates : NodeId → NodeId → QualifiedName → List UaArgument → List UaArgument → Action
  gets : NodeId → Action
  binds : Callable → Node → Action
  drops : Node → Action

pub data Step {S : Type 0} (U : UaServer S) : Action → World S → World S → Type 0 where
  create_step :
      {obj method : NodeId}
      → {name : QualifiedName} → {ins outs : List UaArgument} → {w w' : World S} → (u : UaNodeId)
      → IsNodeId obj
      → IsNodeId method
      → from_node_id U.text method ≡ ok u
      → is_picked u.identifier ≡ false
      → find method w.server.methods ≡ ok none
      → create_and_hold U obj method name ins outs w ≡ ok w'
      → Step U (creates obj method name ins outs) w w'
  get_step :
      {id : NodeId}
      → {w w' : World S} → IsNodeId id
      → get_and_hold U id w ≡ ok w'
      → Step U (gets id) w w'
  bind_step :
      {f : Callable}
      → {n : Node} → {w w' : World S} → (k : ℕ) → get_elem? w.held k ≡ some n
      → bind_callable U f n w ≡ ok w'
      → Step U (binds f n) w w'
  drop_step :
      {n : Node}
      → {w : World S} → (k : ℕ) → get_elem? w.held k ≡ some n
      → Step U (drops n) w (drop_pointer n w)

pub data Run {S : Type 0} (U : UaServer S) : List Action → World S → World S → Type 0 where
  done : {w : World S} → Run U [] w w
  next :
      {a : Action}
      → {rest : List Action} → {w v x : World S} → Step U a w v
      → Run U rest v x
      → Run U (a ∷ rest) w x
