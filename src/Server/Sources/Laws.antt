-- ===== src/Server/Sources/Laws.antt =====
-- VariableNode::connectCallback and MethodNode::bindCallable while another thread runs the server
-- (modernopc/src/nodes/VariableNode.cpp, modernopc/include/modernopc/nodes/MethodNode.h).
use modern_opc.Base.{
  ℕ, ◌≡◌, refl, sym, ap, ◌∙◌, ◌<◌, true, Option, none, some, ok, faults, bad_access, arith, List,
}
use modern_opc.Types.NodeId.{UaNodeId, from_node_id}
use modern_opc.Variant.{UaVariant}
use modern_opc.Methods.{Callable}
use modern_opc.Server.Registry.{Node}
use modern_opc.Server.Ua.{UaServer}
use modern_opc.Server.Nodes.{connect_variable_data_source, connect_method_callback}
use modern_opc.Server.Namespaces.{DataSource}
use modern_opc.Server.Callbacks
use modern_opc.Server.Callbacks.{
  update, assign_callable, release, bind_callable, bind_callable_steps, call_at, call_back,
}
use modern_opc.Server.Callbacks.Steps.{KeepsContexts}
use modern_opc.Server.Callbacks.Binding.{bound, bind_callable_lem, update_same, update_other}
use modern_opc.Server.Sources.{
  World, release_source, make_source, reset_source, connect_source, connect_callback_steps,
  connect_callback, follow_source, source_at,
}

release_other :
    (o : Option ℕ) (heap : ℕ → Option DataSource) (c : ℕ)
    → ((d : ℕ) → o ≡ some d → d < c)
    → release_source o heap c ≡ heap c
unfolding release_source
release_other none heap c h = refl
release_other (some d) heap c h =
    update_other heap d c none (λ e. absurd (omega (arith, h d refl, e)))

module _ {S : Type 0} (U : UaServer S) (K : KeepsContexts U) where
  -- The context of the node is null, or the address of a data source that is alive; what the node
  -- owns is alive.
  pub record IsConnected (u : UaNodeId) (n : Node) (w : World S) : Type 0 where
    pub context_live :
        (c : ℕ)
        → K.context w.server.ua u ≡ some c
        → (c < w.fresh) × ((src : DataSource) × (w.heap c ≡ some src))
    pub owned_live : (c : ℕ) → w.ds n.address ≡ some c → c < w.fresh

  abbrev connected : ℕ → Node → UaNodeId → World S → World S
  connected c n u w = record w {
    server = record w.server {
      ua = U.set_node_context (U.set_data_source w.server.ua u) u (some c);
    };
  }

  connect_source_lem :
      (c : ℕ) (n : Node) (u : UaNodeId) (w : World S)
      → from_node_id U.text n.id ≡ ok u
      → connect_source U c n w ≡ ok (connected c n u w)
  unfolding connect_source connect_variable_data_source
  connect_source_lem c n u w e = rw (e, connect_source, connect_variable_data_source) refl

  source_lem :
      (u : UaNodeId) (c : ℕ) (src : DataSource) (w : World S)
      → K.context w.server.ua u ≡ some c
      → w.heap c ≡ some src
      → source_at K.context u w ≡ ok (some src)
  unfolding source_at follow_source
  source_lem u c src w e h = rw (e, h, source_at, follow_source) refl

  -- Making a data source changes nothing for a callback.
  made_before :
      (src : DataSource) (u : UaNodeId) (w : World S)
      → ((c : ℕ)
          → K.context w.server.ua u ≡ some c
          → (c < w.fresh) × ((old : DataSource) × (w.heap c ≡ some old)))
      → (o : Option ℕ) → K.context w.server.ua u ≡ o
      → source_at K.context u (make_source src w) ≡ source_at K.context u w
  unfolding source_at follow_source make_source
  made_before src u w live none e = rw (e, source_at, follow_source) refl
  made_before src u w live (some c) e =
      let (below, (old, h)) = live c e in
      let same : update w.heap w.fresh (some src) c ≡ w.heap c =
        update_other w.heap w.fresh c (some src) (λ g. absurd (omega arith)) in
      source_lem u c old (make_source src w) e (same ∙ h) ∙ sym (source_lem u c old w e h)

  -- A callback that was given an address in a world and follows it later gets what it got there, as
  -- long as the heap has the same at that address.
  follow_later :
      (c : ℕ) (v x : World S)
      → x.heap c ≡ v.heap c
      → follow_source (some c) x ≡ follow_source (some c) v
  unfolding follow_source
  follow_later c v x h = rw (h, follow_source) refl

  freed_source :
      (c : ℕ) (n : Node) (v : World S)
      → v.ds n.address ≡ some c
      → (d : ℕ) → follow_source (some c) (reset_source d n v) ≡ faults bad_access
  unfolding follow_source reset_source release_source
  freed_source c n v e d = rw (e, update_same v.heap c none, follow_source) refl

  -- connectCallback in three steps: the data source is made, open62541 gets its address, the node takes
  -- it and destroys the one that it had. When another thread has open62541 read or write the variable
  -- between two steps, and the callback ends before the next, it uses no freed memory: before the
  -- second step it gets what it got before, and after it the new data source. A callback that started
  -- before the second step may still end between the second and the third; but if it is under way when
  -- the third destroys the old data source, it follows a pointer to freed memory.
  pub connect_callback-source_at :
      (src : DataSource) (n : Node) (u : UaNodeId) (w : World S)
      → from_node_id U.text n.id ≡ ok u
      → K.known w.server.ua u ≡ true
      → IsConnected u n w
      → (w1 w2 w3 : World S) × (connect_callback_steps U src n w ≡ ok (w1, w2, w3))
        × (connect_callback U src n w ≡ ok w3)
        × (source_at K.context u w1 ≡ source_at K.context u w)
        × (source_at K.context u w2 ≡ ok (some src))
        × (source_at K.context u w3 ≡ ok (some src))
        × IsConnected u n w3
        × ((c : ℕ)
            → K.context w.server.ua u ≡ some c
            → (follow_source (some c) w2 ≡ source_at K.context u w)
              × (w.ds n.address ≡ some c → follow_source (some c) w3 ≡ faults bad_access))
  unfolding connect_callback connect_callback_steps make_source reset_source release_source
      source_at
  connect_callback-source_at src n u w e known i =
      let w1 : World S = make_source src w in
      let w2 : World S = connected w.fresh n u w1 in
      let w3 : World S = reset_source w.fresh n w2 in
      let there : K.context w2.server.ua u ≡ some w.fresh =
        K.context-set _ u (some w.fresh) (K.known-source w.server.ua u u known) in
      let alive : w2.heap w.fresh ≡ some src = update_same w.heap w.fresh (some src) in
      let alive3 : w3.heap w.fresh ≡ some src =
        release_other (w.ds n.address) (update w.heap w.fresh (some src)) w.fresh i.owned_live
        ∙ update_same w.heap w.fresh (some src) in
      (
        w1,
        w2,
        w3,
        rw (connect_source_lem w.fresh n u w1 e, connect_callback_steps) refl,
        rw (connect_source_lem w.fresh n u w1 e, connect_callback, connect_callback_steps) refl,
        made_before src u w i.context_live (K.context w.server.ua u) refl,
        source_lem u w.fresh src w2 there alive,
        source_lem u w.fresh src w3 there alive3,
        record {
          context_live = λ c h.
              let same : w.fresh ≡ c = cc (there, h) in
              (omega (arith, same), (src, ap w3.heap (sym same) ∙ alive3));
          owned_live = λ c h.
              let same : w.fresh ≡ c = cc (update_same w.ds n.address (some w.fresh), h) in
              omega (arith, same);
        },
        λ c h. (
          follow_later c w w2 (
                update_other w.heap w.fresh c (some src)
                  (λ g. absurd (omega (arith, (i.context_live c h).0, g))))
              ∙ ap (λ o. follow_source o w) (sym h),
          λ q. freed_source c n w2 q w.fresh,
        ),
      )

  -- The defect of bindCallable: when a function is bound to a method that has one, the old one is
  -- destroyed before open62541 gets the new address. bindCallable returns, but a call of the method by
  -- a thread that runs the server, between its two statements, follows a pointer to freed memory; and so
  -- does a call that was given the old address before and is still under way when bindCallable is back.
  -- The context of the method is the address of the function that its node owns.
  pub bind_callable_steps-dangles :
      (f : Callable) (n : Node) (u : UaNodeId) (c : ℕ) (w : Callbacks.World S)
      → from_node_id U.text n.id ≡ ok u
      → K.context w.server.ua u ≡ some c
      → w.callable n.address ≡ some c
      → (between v : Callbacks.World S) × (bind_callable_steps U f n w ≡ ok (between, v))
        × (bind_callable U f n w ≡ ok v)
        × ((o : UaNodeId) (ins outs : List UaVariant)
            → call_back U K.context u o ins outs between ≡ faults bad_access)
        × ((object : Option ℕ) (ins outs : List UaVariant)
            → call_at (some c) object ins outs v ≡ faults bad_access)
  unfolding call_back call_at bind_callable bind_callable_steps assign_callable release
      connect_method_callback
  bind_callable_steps-dangles f n u c w e h owns = (
    assign_callable f n w,
    bound U K f n u w,
    rw (e, bind_callable_steps, connect_method_callback) refl,
    bind_callable_lem U K f n u w e,
    λ o ins outs.
        rw (h, owns, update_same (update w.heap w.fresh (some f)) c none, call_back, call_at) refl,
    λ object ins outs. rw (owns, update_same (update w.heap w.fresh (some f)) c none, call_at) refl,
  )
