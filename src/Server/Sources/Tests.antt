-- ===== src/Server/Sources/Tests.antt =====
-- A data source connected to a variable, and a function bound a second time, over a small server.
use modern_opc.Base.{Option, ℕ, ◌≡◌, refl, some, List, ok, faults, bad_access, arith, text}
use modern_opc.Types.NodeId.{UaNodeId, ua_numeric}
use modern_opc.Server.Status.{good}
use modern_opc.Server.Namespaces.{DataSource}
use modern_opc.Server.Callbacks
use modern_opc.Server.Callbacks.{bind_callable, bind_callable_steps, call_at, call_back}
use modern_opc.Variant.{UaVariant}
use modern_opc.Server.Callbacks.Keeper.{Nodes, put, keeper, ua_id, keeper-KeepsContexts}
use modern_opc.Server.Callbacks.Tests.{
  one_object, empty_world, method_node, says_yes, with_function, ua_method_id,
}
use modern_opc.Server.Sources.{
  World, connect_callback_steps, connect_callback, follow_source, source_at,
}
use modern_opc.Server.Sources.Laws.{
  IsConnected, connect_callback-source_at, bind_callable_steps-dangles,
}

abbrev gives_back : DataSource
gives_back = record { key = text "simple"; read = λ id v. ok (good, v); write = λ id v. ok good }

-- The node has one data source already.
abbrev connected_once : World Nodes
connected_once = record {
  server = record empty_world.server { ua = put one_object 1 7 (some 0) };
  ds = λ a. some 0;
  heap = λ c. some gives_back;
  fresh = 1;
}

abbrev variable_id : UaNodeId
variable_id = ua_id 1 (ua_numeric 7)

connected_once-IsConnected :
    IsConnected keeper keeper-KeepsContexts variable_id method_node connected_once
connected_once-IsConnected = record {
  context_live = λ c h. (omega (arith, zero_or h), (gives_back, refl));
  owned_live = λ c h. omega (arith, zero_or h);
}
  where
    zero_or : {c : ℕ} → some 0 ≡ some c → 0 ≡ c
    zero_or h = cc h

connect_callback-source_at_example :
    (w1 w2 w3 : World Nodes) × (connect_callback_steps keeper gives_back method_node connected_once
      ≡ ok (w1, w2, w3))
    × (connect_callback keeper gives_back method_node connected_once ≡ ok w3)
    × (source_at keeper-KeepsContexts.context variable_id w1
        ≡ source_at keeper-KeepsContexts.context variable_id connected_once)
    × (source_at keeper-KeepsContexts.context variable_id w2 ≡ ok (some gives_back))
    × (source_at keeper-KeepsContexts.context variable_id w3 ≡ ok (some gives_back))
    × IsConnected keeper keeper-KeepsContexts variable_id method_node w3
    × ((c : ℕ)
        → keeper-KeepsContexts.context connected_once.server.ua variable_id ≡ some c
        → (follow_source (some c) w2
            ≡ source_at keeper-KeepsContexts.context variable_id connected_once)
          × (connected_once.ds method_node.address ≡ some c
              → follow_source (some c) w3 ≡ faults bad_access))
connect_callback-source_at_example =
    connect_callback-source_at keeper keeper-KeepsContexts gives_back method_node variable_id
      connected_once ua_method_id refl connected_once-IsConnected

bind_callable_steps-dangles_example :
    (between v : Callbacks.World Nodes) × (bind_callable_steps keeper says_yes method_node
        with_function
      ≡ ok (between, v))
    × (bind_callable keeper says_yes method_node with_function ≡ ok v)
    × ((o : UaNodeId) (ins outs : List UaVariant)
        → call_back keeper keeper-KeepsContexts.context variable_id o ins outs between
          ≡ faults bad_access)
    × ((object : Option ℕ) (ins outs : List UaVariant)
        → call_at (some 0) object ins outs v ≡ faults bad_access)
bind_callable_steps-dangles_example =
    bind_callable_steps-dangles keeper keeper-KeepsContexts says_yes method_node variable_id 0
      with_function ua_method_id refl refl
