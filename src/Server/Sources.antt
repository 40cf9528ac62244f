-- ===== src/Server/Sources.antt =====
-- VariableNode::connectCallback (modernopc/src/nodes/VariableNode.cpp) and the callbacks for the data
-- source of a variable, in the steps that a thread that runs the server can come between.
pub mod Laws
pub mod Tests
use modern_opc.Base.{ℕ, suc, Option, none, some, Outcome, ok, faults, bad_access, ◌>>=◌}
use modern_opc.Types.NodeId.{UaNodeId}
use modern_opc.Variant.{UaVariant}
use modern_opc.Server.Status.{UaStatusCode}
use modern_opc.Server.Registry.{Node}
use modern_opc.Server.Ua.{UaServer}
use modern_opc.Server.Nodes.{Server, connect_variable_data_source}
use modern_opc.Server.Namespaces.{DataSource, internal_read, internal_write}
use modern_opc.Server.Callbacks.{update}

-- `ds` is the unique_ptr of each VariableNode, by the node's address; `heap` the DataSources that are
-- alive, by theirs; `fresh` the address of the next one.
pub record World (S : Type 0) : Type 0 where
  pub server : Server S
  pub ds : ℕ → Option ℕ
  pub heap : ℕ → Option DataSource
  pub fresh : ℕ

-- ~unique_ptr
unfoldable pub release_source : Option ℕ → (ℕ → Option DataSource) → ℕ → Option DataSource
release_source none heap = heap
release_source (some c) heap = update heap c none

module _ {S : Type 0} where
  -- std::make_unique<DataSource>, which the caller hands over
  unfoldable pub make_source : DataSource → World S → World S
  make_source src w = record w { heap = update w.heap w.fresh (some src); fresh = suc w.fresh }

  -- ds.reset(dataSource.release()), which destroys what was there before
  unfoldable pub reset_source : ℕ → Node → World S → World S
  unfolding release_source
  reset_source c n w = record w {
    ds = update w.ds n.address (some c);
    heap = release_source (w.ds n.address) w.heap;
  }

module _ {S : Type 0} (U : UaServer S) where
  -- server->connectVariableDataSource(id, dataSource.get())
  unfoldable pub connect_source : ℕ → Node → World S → Outcome (World S)
  connect_source c n w = do
    s ← connect_variable_data_source U n.id (some c) w.server
    ok (record w { server = s })

  -- node->connectCallback(std::make_unique<DataSource>(…)), statement by statement: the worlds after the
  -- argument is made, after connectVariableDataSource, and after the reset of `ds`
  unfoldable pub connect_callback_steps :
      DataSource → Node → World S → Outcome (World S × World S × World S)
  unfolding make_source connect_source reset_source
  connect_callback_steps src n w = do
    let made = make_source src w
    connected ← connect_source w.fresh n made
    ok (made, connected, reset_source w.fresh n connected)

  -- VariableNode::connectCallback
  unfoldable pub connect_callback : DataSource → Node → World S → Outcome (World S)
  unfolding connect_callback_steps
  connect_callback src n w = do (made, connected, v) ← connect_callback_steps src n w; ok v

-- The data source at an address that a callback was given as the node's context; an address that
-- nothing is alive at may not be followed.
unfoldable pub follow_source : {S : Type 0} → Option ℕ → World S → Outcome (Option DataSource)
follow_source none w = ok none
follow_source (some c) w = elim (w.heap c) [ none ↦ faults bad_access | some src ↦ ok (some src) ]

module _ {S : Type 0} (context : S → UaNodeId → Option ℕ) where
  -- The data source that a callback for the node finds when it starts in a world and follows its
  -- context in the same.
  unfoldable pub source_at : UaNodeId → World S → Outcome (Option DataSource)
  unfolding follow_source
  source_at id w = follow_source (context w.server.ua id) w

  -- What open62541 does for a read and for a write of a variable.
  unfoldable pub read_back : UaNodeId → UaVariant → World S → Outcome (UaStatusCode × UaVariant)
  unfolding source_at internal_read
  read_back id value w = do src ← source_at id w; internal_read src id value

  unfoldable pub write_back : UaNodeId → UaVariant → World S → Outcome UaStatusCode
  unfolding source_at internal_write
  write_back id value w = do src ← source_at id w; internal_write src id value
