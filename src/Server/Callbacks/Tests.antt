-- ===== src/Server/Callbacks/Tests.antt =====
-- Methods bound to functions over a small server of open62541.
use modern_opc.Server.Callbacks.Adding.{new_node_of, with_node}
use modern_opc.Methods.Tests.{signature, swap}
use modern_opc.Variant.Tests.{plain_variants}
use modern_opc.Base.{
  Option, zero, suc, ℕ, ◌≡◌, refl, true, false, none, some, List, [], ◌∷◌, ok, pos, arith, to_u32,
}
use modern_opc.Types.Tests.{c_text}
use modern_opc.Types.NodeId.{
  NodeId, IsNodeId, UaNodeId, UaIdentifier, ua_numeric, numeric_node_id, from_node_id,
}
use modern_opc.Types.Names.{empty_qualified_name}
use modern_opc.Variant.{UaVariant}
use modern_opc.Methods.{TypeIds, call_with_object, Callable, internal_method_callback}
use modern_opc.Server.Registry.{Node, find, emplace}
use modern_opc.Server.Nodes.{create_method, new_node, keep_method}
use modern_opc.Server.Callbacks.{
  call_at, take_pointer, World, create_and_hold, bind_callable, drop_pointer, call_back,
}
use modern_opc.Server.Callbacks.Steps.{
  Action, creates, binds, drops, Step, Run, next, done, create_step, bind_step, drop_step,
}
use modern_opc.Server.Callbacks.Invariant.{IsSafe}
use modern_opc.Server.Callbacks.Binding.{bound, bind_callable_lem}
use modern_opc.Server.Callbacks.Safety.{CallsBack, bind_callable-call_back, Run-call_back}
use modern_opc.Server.Callbacks.Keeper.{
  Nodes, put, is_method_at, keeper, ua_id, keeper-KeepsContexts,
}

-- An object with a context.
abbrev pub one_object : Nodes
one_object = put (λ a b. none) 0 85 (some 5)

abbrev object_85 : UaNodeId
object_85 = ua_id 0 (ua_numeric 85)

-- A world in which nothing was made yet but the object.
abbrev pub empty_world : World Nodes
empty_world = record {
  server = record {
    ua = one_object;
    is_running = false;
    objects = [];
    methods = [];
    variables = [];
    next = 0;
  };
  callable = λ a. none;
  heap = λ c. none;
  fresh = 0;
  held = [];
}

empty_world-IsSafe : IsSafe keeper keeper-KeepsContexts empty_world
unfolding find
empty_world-IsSafe = record {
  methods_ok = tt;
  nodes_apart = λ i j n m vi vj f g e. absurd (nothing i n f);
  kept = λ k n h. cc h;
  nodes_known = λ i n u v f e. absurd (nothing i n f);
  alive = λ a c h. cc h;
  callables_apart = λ a b c h k. cc h;
  owned = λ u c m h. absurd (no_method u.namespace_index u.identifier m);
}
  where
    nothing : (i : NodeId) (n : Node) → find i [] ≡ ok (some n) → ⊥
    nothing i n h = cc h

    no_method : (ns : ℕ) (i : UaIdentifier) → is_method_at one_object ns i ≡ true → ⊥
    no_method zero i h = cc h
    no_method (suc k) (ua_numeric n) h = ground arith
    no_method (suc k) _ h = cc h

abbrev pub method_id : NodeId
method_id = numeric_node_id 1 (pos 7)

method_id-IsNodeId : IsNodeId method_id
method_id-IsNodeId = record { ns_range = omega arith; holds = omega arith }

abbrev pub method_node : Node
method_node = record { address = 0; id = method_id }

abbrev pub says_yes : Callable
says_yes object ins outs = ok (true, outs)

abbrev pub with_method : World Nodes
with_method = record empty_world {
  server = record empty_world.server {
    ua = put one_object 1 7 none;
    methods = (method_id, method_node) ∷ [];
    next = 1;
  };
  held = method_node ∷ [];
}

abbrev pub with_function : World Nodes
with_function =
    bound keeper keeper-KeepsContexts says_yes method_node (ua_id 1 (ua_numeric 7)) with_method

pub ua_method_id : from_node_id c_text method_id ≡ ok (ua_id 1 (ua_numeric 7))
unfolding from_node_id to_u32
ua_method_id = refl

method_created :
    create_and_hold keeper method_id method_id empty_qualified_name [] [] empty_world
    ≡ ok with_method
unfolding create_and_hold create_method new_node keep_method from_node_id to_u32 emplace find
    take_pointer
method_created = refl

function_bound : bind_callable keeper says_yes method_node with_method ≡ ok with_function
function_bound =
    bind_callable_lem keeper keeper-KeepsContexts says_yes method_node (ua_id 1 (ua_numeric 7))
      with_method ua_method_id

nothing_there : find method_id [] ≡ ok none
unfolding find
nothing_there = refl

-- A method is created, a function is bound to it, and the pointer is dropped.
abbrev actions : List Action
actions =
    creates method_id method_id empty_qualified_name [] []
    ∷ binds says_yes method_node
    ∷ drops method_node
    ∷ []

creates_first :
    Step keeper (creates method_id method_id empty_qualified_name [] []) empty_world with_method
creates_first =
    create_step (ua_id 1 (ua_numeric 7)) method_id-IsNodeId method_id-IsNodeId ua_method_id refl
      nothing_there method_created

program_runs : Run keeper actions empty_world (drop_pointer method_node with_function)
program_runs =
    next creates_first (next (bind_step 0 refl function_bound) (next (drop_step 0 refl) done))

Run-call_back_example :
    IsSafe keeper keeper-KeepsContexts (drop_pointer method_node with_function)
    × ((u o : UaNodeId) (ins outs : List UaVariant)
        → keeper-KeepsContexts.is_method (drop_pointer method_node with_function).server.ua u ≡ true
        → CallsBack keeper keeper-KeepsContexts u o ins outs
            (drop_pointer method_node with_function))
Run-call_back_example =
    Run-call_back keeper keeper-KeepsContexts actions empty_world
      (drop_pointer method_node with_function) empty_world-IsSafe program_runs

with_method-IsSafe : IsSafe keeper keeper-KeepsContexts with_method
with_method-IsSafe =
    (Run-call_back keeper keeper-KeepsContexts _ empty_world with_method empty_world-IsSafe
      (next creates_first done)).0

bind_callable-call_back_example :
    (bind_callable keeper says_yes method_node with_method ≡ ok with_function)
    × (call_back keeper keeper-KeepsContexts.context
          (ua_id 1 (ua_numeric 7))
          object_85
          []
          []
          (drop_pointer method_node with_function)
        ≡ internal_method_callback
            (some says_yes)
            (keeper-KeepsContexts.context
              (drop_pointer method_node with_function).server.ua
              object_85)
            []
            [])
    × ((object : Option ℕ)
        → call_at (some with_method.fresh) object [] [] (drop_pointer method_node with_function)
          ≡ internal_method_callback (some says_yes) object [] [])
bind_callable-call_back_example =
    bind_callable-call_back keeper keeper-KeepsContexts says_yes 0 method_node
      (ua_id 1 (ua_numeric 7)) with_method (drop_pointer method_node with_function)
      (drops method_node ∷ []) object_85 [] [] with_method-IsSafe refl ua_method_id
      (next (drop_step 0 refl) done) (tt, tt)

abbrev method_7 : UaNodeId
method_7 = ua_id 1 (ua_numeric 7)

abbrev type_ids : TypeIds
type_ids t = ua_id 0 (ua_numeric 6)

abbrev swaps : Callable
swaps = call_with_object plain_variants c_text signature (λ o. swap)

abbrev swapping : World Nodes
swapping =
    bound keeper keeper-KeepsContexts swaps
      (new_node_of keeper keeper-KeepsContexts plain_variants type_ids method_id empty_world)
      method_7
      (with_node keeper keeper-KeepsContexts plain_variants type_ids method_7 method_7 method_id
        empty_qualified_name signature empty_world)
