-- ===== src/Server/Callbacks.antt =====
-- Methods of class Server and the functions bound to them: createMethod, getMethod,
-- MethodNode::bindCallable and the callback (modernopc/src/Server.cpp,
-- modernopc/include/modernopc/nodes/MethodNode.h). The maps and the user share the nodes; a node
-- owns its ICallable; open62541 keeps the address of an ICallable as the context of a node.
pub mod Steps
pub mod Invariant
pub mod Binding
pub mod Pointers
pub mod Making
pub mod Safety
pub mod Adding
pub mod Keeper
pub mod Tests
use modern_opc.Base.{
  ℕ, suc, Bool, true, false, ◌||◌, ◌==◌, if◌then◌else◌, Option, none, some, List, [], ◌∷◌, Outcome,
  ok, faults, bad_access, ◌>>=◌,
}
use modern_opc.Types.NodeId.{NodeId, UaNodeId}
use modern_opc.Types.Names.{QualifiedName}
use modern_opc.Variant.{UaVariant}
use modern_opc.Methods.{Callable, internal_method_callback}
use modern_opc.Server.Status.{UaStatusCode}
use modern_opc.Server.Registry.{Node, Registry}
use modern_opc.Server.Ua.{UaArgument, UaServer}
use modern_opc.Server.Nodes.{Server, get_method, create_method, connect_method_callback}

-- `callable` is the unique_ptr of each MethodNode, by the node's address; `heap` the ICallables that
-- are alive, by theirs; `fresh` the address of the next one; `held` the user's shared pointers.
pub record World (S : Type 0) : Type 0 where
  pub server : Server S
  pub callable : ℕ → Option ℕ
  pub heap : ℕ → Option Callable
  pub fresh : ℕ
  pub held : List Node

abbrev pub update : {A : Type 0} → (ℕ → Option A) → ℕ → Option A → ℕ → Option A
update f x v y = if x == y then v else f y

-- ~unique_ptr
unfoldable pub release : Option ℕ → (ℕ → Option Callable) → ℕ → Option Callable
release none heap = heap
release (some c) heap = update heap c none

-- Whether another shared pointer to the node is left: in the map, or with the user.
unfoldable pub in_registry : ℕ → Registry → Bool
in_registry a [] = false
in_registry a ((k, n) ∷ r) = (n.address == a) || in_registry a r

unfoldable pub is_held : ℕ → List Node → Bool
is_held a [] = false
is_held a (n ∷ ns) = (n.address == a) || is_held a ns

-- One shared pointer of the user less.
unfoldable pub remove_pointer : ℕ → List Node → List Node
remove_pointer a [] = []
remove_pointer a (n ∷ ns) =
    let rest = remove_pointer a ns in if n.address == a then ns else n ∷ rest

-- The user keeps the pointer that a function answers.
unfoldable pub take_pointer : {S : Type 0} → World S → Option Node → Server S → World S
take_pointer w none s = record w { server = s }
take_pointer w (some n) s = record w { server = s; held = n ∷ w.held }

module _ {S : Type 0} where
  -- ~shared_ptr: the node dies with the last pointer to it, and its ICallable with the node.
  unfoldable pub drop_pointer : Node → World S → World S
  unfolding in_registry is_held remove_pointer release
  drop_pointer n w =
      let held = remove_pointer n.address w.held in
      if in_registry n.address w.server.methods || is_held n.address held
      then record w { held = held }
      else record w {
        held = held;
        heap = release (w.callable n.address) w.heap;
        callable = update w.callable n.address none;
      }

  -- internalMethodCallback with the context of the method and that of the object as open62541 hands
  -- them over. Following the address of an ICallable that is destroyed is a fault.
  unfoldable pub call_at :
      Option ℕ
      → Option ℕ
      → List UaVariant
      → List UaVariant
      → World S
      → Outcome (UaStatusCode × List UaVariant)
  unfolding internal_method_callback
  call_at none object ins outs w = internal_method_callback none object ins outs
  call_at (some c) object ins outs w = elim (w.heap c) [
    | none ↦ faults bad_access
    | some f ↦ internal_method_callback (some f) object ins outs
  ]

  -- callable = std::make_unique<Call<decltype(fn)>>(fn)
  unfoldable pub assign_callable : Callable → Node → World S → World S
  unfolding release
  assign_callable f n w = record w {
    callable = update w.callable n.address (some w.fresh);
    heap = release (w.callable n.address) (update w.heap w.fresh (some f));
    fresh = suc w.fresh;
  }

module _ {S : Type 0} (U : UaServer S) where
  -- MethodNode::bindCallable, statement by statement: what make_unique made is assigned to `callable`,
  -- which destroys what was bound before; then connectMethodCallback. It gives the world between the
  -- two statements and the world at the end.
  unfoldable pub bind_callable_steps : Callable → Node → World S → Outcome (World S × World S)
  unfolding assign_callable
  bind_callable_steps f n w = do
    let v = assign_callable f n w
    s ← connect_method_callback U n.id (some w.fresh) v.server
    ok (v, record v { server = s })

  -- MethodNode::bindCallable
  unfoldable pub bind_callable : Callable → Node → World S → Outcome (World S)
  unfolding bind_callable_steps
  bind_callable f n w = do (between, v) ← bind_callable_steps f n w; ok v

  -- The user calls Server::createMethod or Server::getMethod and keeps the pointer.
  unfoldable pub create_and_hold :
      NodeId
      → NodeId
      → QualifiedName
      → List UaArgument
      → List UaArgument
      → World S
      → Outcome (World S)
  unfolding take_pointer
  create_and_hold obj method name inputs outputs w = do
    (n, s) ← create_method U obj method name inputs outputs w.server
    ok (take_pointer w n s)

  unfoldable pub get_and_hold : NodeId → World S → Outcome (World S)
  unfolding take_pointer
  get_and_hold id w = do (n, s) ← get_method U id w.server; ok (take_pointer w n s)

  -- ObjectNode::addMethod, called for the pointer that it answers: createMethod, and bindCallable when
  -- that answers a node
  unfoldable pub add_and_hold :
      Callable
      → NodeId
      → NodeId
      → QualifiedName
      → List UaArgument
      → List UaArgument
      → World S
      → Outcome (World S)
  unfolding take_pointer bind_callable
  add_and_hold f obj method name inputs outputs w = do
    (n, s) ← create_method U obj method name inputs outputs w.server
    elim n [
      | none ↦ ok (take_pointer w none s)
      | some ptr ↦ bind_callable f ptr (take_pointer w (some ptr) s)
    ]

  -- What open62541 does for a call of a method of an object: internalMethodCallback on the contexts of
  -- the two nodes, of which `context` is the reader. It follows them in the world in which it starts; a
  -- call that is under way in a later world is `call_at` there.
  unfoldable pub call_back :
      (S → UaNodeId → Option ℕ)
      → UaNodeId
      → UaNodeId
      → List UaVariant
      → List UaVariant
      → World S
      → Outcome (UaStatusCode × List UaVariant)
  unfolding call_at
  call_back context id object ins outs w =
      call_at (context w.server.ua id) (context w.server.ua object) ins outs w
