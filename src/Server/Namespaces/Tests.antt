-- ===== src/Server/Namespaces/Tests.antt =====
-- A data source that always fails, and a path that leads nowhere.
use modern_opc.Base.{some, to_u32, ◌≡◌, refl, ok, true, ℕ, text}
use modern_opc.Types.Tests.{c_text, test_id, test_id-IsNodeId}
use modern_opc.Types.NodeId.{null_node_id, from_node_id}
use modern_opc.Variant.{empty}
use modern_opc.Server.Status.{good, other_status}
use modern_opc.Server.Nodes.{Server}
use modern_opc.Server.Tests.{small, start, ua_ns0}
use modern_opc.Server.Namespaces.{DataSource, internal_read, internal_write, write_variable}
use modern_opc.Server.Namespaces.Statuses.{statuses_lost}

abbrev failing : DataSource
failing = record {
  key = text "sensor";
  read = λ id v. ok (other_status 9, v);
  write = λ id v. ok (other_status 10);
}

statuses_lost_example :
    (internal_read (some failing) (ua_ns0 7) empty ≡ ok (good, empty))
    × (internal_write (some failing) (ua_ns0 7) empty ≡ ok good)
    × (t : Server ℕ) × (write_variable small test_id empty start ≡ ok (true, t))
statuses_lost_example =
    statuses_lost small failing (ua_ns0 7) empty empty (other_status 9) (other_status 10) test_id
      start refl refl test_id-IsNodeId

root_found : from_node_id c_text null_node_id ≡ ok (ua_ns0 0)
unfolding from_node_id to_u32
root_found = refl
