-- ===== src/Server/Callbacks/Invariant.antt =====
-- What holds of nodes, ICallables and contexts between the calls of class Server.
use modern_opc.Base.{
  ℕ, zero, subst, suc, ◌≡◌, refl, sym, ap, ◌∙◌, ◌⊎◌, inl, inr, ◌<◌, true, Option, none, some, ◌∷◌,
  ok, get_elem?, arith,
}
use modern_opc.Types.NodeId.{NodeId, IsNodeId, UaNodeId, from_node_id}
use modern_opc.Types.NodeId.Equality.{node_id_eq-Decides}
use modern_opc.Methods.{Callable}
use modern_opc.Server.Registry.{Node, Registry, find, Absent, IsRegistry, Finds}
use modern_opc.Server.Registry.Laws.{find-Finds, find-emplace, IsRegistry-mono}
use modern_opc.Server.Ua.{UaServer}
use modern_opc.Server.Nodes.{Server}
use modern_opc.Server.Callbacks.{World}
use modern_opc.Server.Callbacks.Steps.{KeepsContexts}

pub record IsSafe {S : Type 0} (U : UaServer S) (K : KeepsContexts U) (w : World S) : Type 0 where
  pub methods_ok : IsRegistry w.server.next w.server.methods
  pub nodes_apart :
      (i j : NodeId) (n m : Node)
      → IsNodeId i
      → IsNodeId j
      → find i w.server.methods ≡ ok (some n)
      → find j w.server.methods ≡ ok (some m)
      → n.address ≡ m.address
      → n ≡ m
  pub kept :
      (k : ℕ) (n : Node)
      → get_elem? w.held k ≡ some n
      → IsNodeId n.id × (find n.id w.server.methods ≡ ok (some n))
  pub nodes_known :
      (i : NodeId) (n : Node) (u : UaNodeId)
      → IsNodeId i
      → find i w.server.methods ≡ ok (some n)
      → from_node_id U.text i ≡ ok u
      → K.is_method w.server.ua u ≡ true
  pub alive :
      (a c : ℕ) → w.callable a ≡ some c → (c < w.fresh) × ((f : Callable) × (w.heap c ≡ some f))
  pub callables_apart : (a b c : ℕ) → w.callable a ≡ some c → w.callable b ≡ some c → a ≡ b
  pub owned :
      (u : UaNodeId) (c : ℕ)
      → K.is_method w.server.ua u ≡ true
      → K.context w.server.ua u ≡ some c
      → (n : Node) × IsNodeId n.id
        × (find n.id w.server.methods ≡ ok (some n))
        × (w.callable n.address ≡ some c)
        × (from_node_id U.text n.id ≡ ok u)

-- The map after a node was added under an id that it did not hold.
pub find-none-Absent :
    (id : NodeId) (next : ℕ) (r : Registry)
    → IsNodeId id
    → IsRegistry next r
    → find id r ≡ ok none
    → Absent id r
find-none-Absent id next r v i f = let (o, g, h) = find-Finds id next r v i in go o g h
  where
    go : (o : Option Node) → find id r ≡ ok o → Finds id next r o → Absent id r
    go none g h = h
    go (some n) g h = cc (f, g)

pub find-below :
    (id : NodeId) (next : ℕ) (r : Registry) (n : Node)
    → IsNodeId id
    → IsRegistry next r
    → find id r ≡ ok (some n)
    → (n.id ≡ id) × (n.address < next)
find-below id next r n v i f = let (o, g, h) = find-Finds id next r v i in go o g h
  where
    go : (o : Option Node) → find id r ≡ ok o → Finds id next r o → (n.id ≡ id) × (n.address < next)
    go none g h = cc (f, g)
    go (some m) g h = subst_node m (cc (f, g)) h
      where
        subst_node :
            (m : Node) → m ≡ n → (m.id ≡ id) × (m.address < next) → (n.id ≡ id) × (n.address < next)
        subst_node m e h = (sym (ap Node.id e) ∙ h.0, omega (arith, ap Node.address e, h.1))

module _ (id : NodeId) (n : Node) (next : ℕ) (r : Registry) where
  -- What is found in the grown map is the new node under its id, or was found before.
  pub find_grown :
      IsNodeId id
      → IsRegistry next r
      → find id r ≡ ok none
      → (j : NodeId) (m : Node) → IsNodeId j
      → find j ((id, n) ∷ r) ≡ ok (some m)
      → ((m ≡ n) × (j ≡ id)) ⊎ (find j r ≡ ok (some m))
  find_grown v i f j m w g = elim (node_id_eq-Decides j id w v) [
    | inl h ↦ inl (
      cc (
        g,
        ap (λ x. find x ((id, n) ∷ r)) h.1,
        (find-emplace id id n next r v v i (find-none-Absent id next r v i f)).0,
      ),
      h.1,
    )
    | inr h ↦
        inr (sym ((find-emplace id j n next r v w i (find-none-Absent id next r v i f)).1 h.1) ∙ g)
  ]

  pub find_still :
      IsNodeId id
      → IsRegistry next r
      → find id r ≡ ok none
      → (j : NodeId) (m : Node) → IsNodeId j
      → find j r ≡ ok (some m)
      → find j ((id, n) ∷ r) ≡ ok (some m)
  find_still v i f j m w g =
      (find-emplace id j n next r v w i (find-none-Absent id next r v i f)).1
        (λ e. cc (f, g, ap (λ x. find x r) e))
      ∙ g

-- Each operation changes a world in one of three ways that keep the invariant.
module _ {S : Type 0} (U : UaServer S) (K : KeepsContexts U) where
  -- open62541 keeps its methods, and none has a new context.
  abbrev pub IsQuiet : S → S → Type 0
  IsQuiet s t =
      ((u : UaNodeId) → K.is_method s u ≡ true → K.is_method t u ≡ true)
      × ((u : UaNodeId) (c : ℕ)
          → K.is_method t u ≡ true
          → K.context t u ≡ some c
          → (K.is_method s u ≡ true) × (K.context s u ≡ some c))

  pub quiet-IsSafe :
      (w : World S) (t : S)
      → IsQuiet w.server.ua t
      → IsSafe U K w
      → IsSafe U K (record w { server = record w.server { ua = t } })
  quiet-IsSafe w t (knows, quiet) i = record {
    methods_ok = i.methods_ok;
    nodes_apart = i.nodes_apart;
    kept = i.kept;
    nodes_known = λ j n u v f e. knows u (i.nodes_known j n u v f e);
    alive = i.alive;
    callables_apart = i.callables_apart;
    owned = λ u c m e. let (p, q) = quiet u c m e in i.owned u c p q;
  }

  pub hold-IsSafe :
      (w : World S) (n : Node)
      → IsNodeId n.id
      → find n.id w.server.methods ≡ ok (some n)
      → IsSafe U K w
      → IsSafe U K (record w { held = n ∷ w.held })
  hold-IsSafe w n v f i = record {
    methods_ok = i.methods_ok;
    nodes_apart = i.nodes_apart;
    kept = held;
    nodes_known = i.nodes_known;
    alive = i.alive;
    callables_apart = i.callables_apart;
    owned = i.owned;
  }
    where
      held :
          (k : ℕ) (m : Node)
          → get_elem? (n ∷ w.held) k ≡ some m
          → IsNodeId m.id × (find m.id w.server.methods ≡ ok (some m))
      held zero m e =
          subst (λ x. IsNodeId x.id × (find x.id w.server.methods ≡ ok (some x))) (cc e) (v, f)
      held (suc k) m e = i.kept k m e

  -- The node that the two functions make under an id that the map does not hold.
  abbrev pub grown : NodeId → Server S → Server S
  grown id s = record s {
    next = suc s.next;
    methods = (id, record { address = s.next; id = id }) ∷ s.methods;
  }

  pub grown-IsSafe :
      (w : World S) (id : NodeId) (u : UaNodeId)
      → IsNodeId id
      → find id w.server.methods ≡ ok none
      → from_node_id U.text id ≡ ok u
      → K.is_method w.server.ua u ≡ true
      → IsSafe U K w
      → IsSafe U K (record w { server = grown id w.server })
  grown-IsSafe w id u v f e known i = record {
    methods_ok = (
      v,
      refl,
      omega arith,
      find-none-Absent id w.server.next w.server.methods v i.methods_ok f,
      IsRegistry-mono w.server.next (suc w.server.next) w.server.methods (omega arith) i.methods_ok,
    );
    nodes_apart =
        λ i1 j n m vi vj fi fj e1. apart i1 j n m vi vj (grows i1 n vi fi) (grows j m vj fj) e1;
    kept = λ k n h. let (a, b) = i.kept k n h in (a, still n.id n a b);
    nodes_known = λ j n x vj fj e1. knows j n x e1 vj (grows j n vj fj);
    alive = i.alive;
    callables_apart = i.callables_apart;
    owned = λ x c z h. let (n, a, b, p, q) = i.owned x c z h in (n, a, still n.id n a b, p, q);
  }
    where
      new : Node
      new = record { address = w.server.next; id = id }

      still :
          (j : NodeId) (m : Node)
          → IsNodeId j
          → find j w.server.methods ≡ ok (some m)
          → find j ((id, new) ∷ w.server.methods) ≡ ok (some m)
      still = find_still id new w.server.next w.server.methods v i.methods_ok f

      grows :
          (j : NodeId) (m : Node)
          → IsNodeId j
          → find j ((id, new) ∷ w.server.methods) ≡ ok (some m)
          → ((m ≡ new) × (j ≡ id)) ⊎ (find j w.server.methods ≡ ok (some m))
      grows = find_grown id new w.server.next w.server.methods v i.methods_ok f

      apart :
          (j k : NodeId) (n m : Node)
          → IsNodeId j
          → IsNodeId k
          → ((n ≡ new) × (j ≡ id)) ⊎ (find j w.server.methods ≡ ok (some n))
          → ((m ≡ new) × (k ≡ id)) ⊎ (find k w.server.methods ≡ ok (some m))
          → n.address ≡ m.address
          → n ≡ m
      apart j k n m vj vk (inl a) (inl b) e = cc (a.0, b.0)
      apart j k n m vj vk (inl a) (inr b) e =
          let h = find-below k w.server.next w.server.methods m vk i.methods_ok b in
          absurd (omega (arith, ap Node.address a.0, e, h.1))
      apart j k n m vj vk (inr a) (inl b) e =
          let h = find-below j w.server.next w.server.methods n vj i.methods_ok a in
          absurd (omega (arith, ap Node.address b.0, e, h.1))
      apart j k n m vj vk (inr a) (inr b) e = i.nodes_apart j k n m vj vk a b e

      knows :
          (j : NodeId) (n : Node) (x : UaNodeId)
          → from_node_id U.text j ≡ ok x
          → IsNodeId j
          → ((n ≡ new) × (j ≡ id)) ⊎ (find j w.server.methods ≡ ok (some n))
          → K.is_method w.server.ua x ≡ true
      knows j n x e1 vj (inl a) =
          subst (λ y. K.is_method w.server.ua y ≡ true) (cc (e, e1, ap (from_node_id U.text) a.1))
            known
      knows j n x e1 vj (inr b) = i.nodes_known j n x vj b e1
