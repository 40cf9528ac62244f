-- ===== src/Server/Lookup/Requests.antt =====
-- Any sequence of calls that create or look up nodes.
use modern_opc.Base.{
  All, Returns-ok, ℕ, ◌≡◌, Option, List, [], ◌∷◌, Outcome, ok, throws, faults, ◌>>=◌, Returns,
}
use modern_opc.Types.NodeId.{NodeId, IsNodeId}
use modern_opc.Types.Names.{QualifiedName}
use modern_opc.Server.Registry.{Node}
use modern_opc.Server.Ua.{UaArgument, UaVariableAttributes, UaServer}
use modern_opc.Server.Nodes.{
  Server, Made, get_object, get_method, get_variable, create_object, create_method, create_variable,
}
use modern_opc.Server.Lookup.{
  IsServer, Later, MakesLater, get_object-Later, get_method-Later, get_variable-Later,
  create_object-Later, create_method-Later, create_variable-Later,
}

-- One call of class Server, with its arguments.
pub data Request : Type 0 where
  gets_object gets_method gets_variable : NodeId → Request
  creates_object : NodeId → NodeId → NodeId → QualifiedName → Option ℕ → Request
  creates_method : NodeId → NodeId → QualifiedName → List UaArgument → List UaArgument → Request
  creates_variable : NodeId → NodeId → NodeId → QualifiedName → UaVariableAttributes → Request

-- The node ids of a call are well formed.
abbrev pub IsRequest : Request → Type 0
IsRequest (gets_object id) = IsNodeId id
IsRequest (gets_method id) = IsNodeId id
IsRequest (gets_variable id) = IsNodeId id
IsRequest (creates_object p r t n c) = IsNodeId p × IsNodeId r × IsNodeId t
IsRequest (creates_method o m n i u) = IsNodeId o × IsNodeId m
IsRequest (creates_variable p r t n a) = IsNodeId p × IsNodeId r × IsNodeId t

module _ {S : Type 0} (U : UaServer S) where
  unfoldable pub handle : Request → Server S → Made S
  unfolding get_object get_method get_variable create_object create_method create_variable
  handle (gets_object id) s = get_object U id s
  handle (gets_method id) s = get_method U id s
  handle (gets_variable id) s = get_variable U id s
  handle (creates_object p r t n c) s = create_object U p r t n c s
  handle (creates_method o m n i u) s = create_method U o m n i u s
  handle (creates_variable p r t n a) s = create_variable U p r t n a s

  unfoldable pub handle_all : List Request → Server S → Outcome (Server S)
  handle_all [] s = ok s
  handle_all (q ∷ qs) s = do (n, t) ← handle q s; handle_all qs t

  handle-Later : (q : Request) (s : Server S) → IsRequest q → IsServer s → MakesLater s (handle q s)
  unfolding handle
  handle-Later (gets_object id) s h i = get_object-Later U id s h i
  handle-Later (gets_method id) s h i = get_method-Later U id s h i
  handle-Later (gets_variable id) s h i = get_variable-Later U id s h i
  handle-Later (creates_object p r t n c) s h i = create_object-Later U p r t n c s h.0 h.1 h.2 i
  handle-Later (creates_method o m n j u) s h i = create_method-Later U o m n j u s h.0 h.1 i
  handle-Later (creates_variable p r t n a) s h i =
      create_variable-Later U p r t n a s h.0 h.1 h.2 i

  Later-trans : (s t u : Server S) → Later s t → Later t u → Later s u
  Later-trans s t u (i, o, m, v) (j, o', m', v') = (
    j,
    λ k n w h. o' k n w (o k n w h),
    λ k n w h. m' k n w (m k n w h),
    λ k n w h. v' k n w (v k n w h),
  )

  handle_next :
      (q : Request) (qs : List Request) (n : Option Node) (s t : Server S)
      → handle q s ≡ ok (n, t)
      → handle_all (q ∷ qs) s ≡ handle_all qs t
  unfolding handle_all
  handle_next q qs n s t e = rw e

  -- Calls with well-formed node ids, in any number and order and whatever open62541 answers, end
  -- without an exception; the three maps stay well formed, and a node that one of them holds for
  -- an id is held for that id ever after.
  pub handle_all-Later :
      (qs : List Request) (s : Server S)
      → All IsRequest qs
      → IsServer s
      → Returns (Later s) (handle_all qs s)
  handle_all-Later [] s h i = unfold handle_all in (i, λ j m w h. h, λ j m w h. h, λ j m w h. h)
  handle_all-Later (q ∷ qs) s h i =
      let (a, e, l) = Returns-ok _ (handle q s) (handle-Later q s h.0 i) in
      rw (handle_next q qs a.0 s a.1 e)
        (further a.1 (handle_all qs a.1) l (handle_all-Later qs a.1 h.1 l.0))
    where
      further :
          (t : Server S) (r : Outcome (Server S))
          → Later s t
          → Returns (Later t) r
          → Returns (Later s) r
      further t (ok u) l k = Later-trans s t u l k
      further t (throws x) l k = k
      further t (faults x) l k = k
