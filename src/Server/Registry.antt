-- ===== src/Server/Registry.antt =====
-- The std::unordered_map<NodeId, std::shared_ptr<T>> of class Server, as the list of its entries.
-- A shared pointer is the address of its node beside the node's id.
pub mod Laws
use modern_opc.Base.{
  ℕ, ◌≡◌, ◌≢◌, refl, sym, ap, ◌⊎◌, inl, inr, Bool, true, false, if◌then◌else◌, Option, none, some,
  List, [], ◌∷◌, Outcome, ok, ◌>>=◌, arith, All, Decides, ◌<◌, ◌≤◌, suc, Bool-cases,
}
use modern_opc.Types.NodeId.{NodeId, IsNodeId, node_id_eq}
use modern_opc.Types.NodeId.Equality.{node_id_eq-Decides}

pub record Node : Type 0 where
  pub address : ℕ
  pub id : NodeId

abbrev pub Registry : Type 0
Registry = List (NodeId × Node)

-- map.find(id)
unfoldable pub find : NodeId → Registry → Outcome (Option Node)
find id [] = ok none
find id ((k, n) ∷ r) = do same ← node_id_eq k id; if same then ok (some n) else find id r

-- map.emplace(id, ptr), which leaves an entry that is there
unfoldable pub emplace : NodeId → Node → Registry → Outcome Registry
unfolding find
emplace id n r = do found ← find id r; elim found [ none ↦ ok ((id, n) ∷ r) | some m ↦ ok r ]

-- Every key is well formed and is the id of its node, every node was made before `next`, and no
-- key stands twice.
abbrev pub Absent : NodeId → Registry → Type 0
Absent id = All (λ e. e.0 ≢ id)

abbrev pub IsRegistry : ℕ → Registry → Type 0
IsRegistry next [] = Unit {0}
IsRegistry next ((k, n) ∷ r) =
    IsNodeId k × (n.id ≡ k) × (n.address < next) × Absent k r × IsRegistry next r

-- What a search finds: nothing, or the node of that id.
abbrev pub Finds : NodeId → ℕ → Registry → Option Node → Type 0
Finds id next r none = Absent id r
Finds id next r (some n) = (n.id ≡ id) × (n.address < next)
