-- ===== src/Server/Lookup.antt =====
-- The three maps of class Server under the functions that create and look up nodes
-- (modernopc/src/Server.cpp).
pub mod Requests
pub mod Objects
pub mod Creation
use modern_opc.Base.{
  ℕ, suc, ◌≡◌, ◌≢◌, refl, sym, ap, ◌∙◌, ◌⊎◌, inl, inr, Bool, true, false, if◌then◌else◌, Option,
  none, some, List, [], ◌∷◌, Outcome, ok, throws, faults, ◌>>=◌, >>=-eq-ok, arith, Bool-cases,
  Returns, ◌<◌, subst,
}
use modern_opc.Types.NodeId.{NodeId, IsNodeId, UaNodeId, from_node_id}
use modern_opc.Types.NodeId.Conversion.{from_node_id-total}
use modern_opc.Types.Names.{QualifiedName, from_qualified_name}
use modern_opc.Server.Status.{
  UaNodeClass, class_object, class_method, class_variable, is_good, class_eq,
}
use modern_opc.Server.Registry.{Node, Registry, find, emplace, Absent, IsRegistry, Finds}
use modern_opc.Server.Registry.Laws.{Kept, emplace_lem, find-Finds, IsRegistry-mono}
use modern_opc.Server.Ua.{NewNode, UaArgument, UaVariableAttributes, UaServer}
use modern_opc.Server.Nodes.{
  Server, Made, make_shared, keep_object, keep_method, keep_variable, has_class, get_object,
  get_method, get_variable, create_object, create_method, create_variable, new_node,
}

if_ok : (b x y : Bool) → (if b then ok x else ok y) ≡ ok (if b then x else y)
if_ok true x y = refl
if_ok false x y = refl

module _ {S : Type 0} where
  -- The three maps have one node for each key, of that key's id, made before `next`.
  abbrev pub IsServer : Server S → Type 0
  IsServer s =
      IsRegistry s.next s.objects × IsRegistry s.next s.methods × IsRegistry s.next s.variables

  -- A later state of the server: its maps are well formed, and they still hold every node that
  -- they held before.
  abbrev pub Later : Server S → Server S → Type 0
  Later s t =
      IsServer t
      × Kept s.objects t.objects
      × Kept s.methods t.methods
      × Kept s.variables t.variables

  Later-refl : (s : Server S) → IsServer s → Later s s
  Later-refl s i = (i, λ j m w h. h, λ j m w h. h, λ j m w h. h)

  abbrev pub MakesLater : Server S → Made S → Type 0
  MakesLater s = Returns (λ (r : Option Node × Server S). Later s r.1)

module _ {S : Type 0} (U : UaServer S) where
  keep_object-Later :
      (id : NodeId) (s : Server S) → IsNodeId id → IsServer s → MakesLater s (keep_object U id s)
  unfolding keep_object
  keep_object-Later id s v (o, m, x) =
      let (r, e, i, k, _) = emplace_lem id s.next s.objects v o in
      rw (e, keep_object)
        (
          (
            i,
            IsRegistry-mono s.next (suc s.next) s.methods (omega arith) m,
            IsRegistry-mono s.next (suc s.next) s.variables (omega arith) x,
          ),
          k,
          λ j n w h. h,
          λ j n w h. h,
        )

  keep_method-Later :
      (id : NodeId) (s : Server S) → IsNodeId id → IsServer s → MakesLater s (keep_method U id s)
  unfolding keep_method
  keep_method-Later id s v (o, m, x) =
      let (r, e, i, k, _) = emplace_lem id s.next s.methods v m in
      rw (e, keep_method)
        (
          (
            IsRegistry-mono s.next (suc s.next) s.objects (omega arith) o,
            i,
            IsRegistry-mono s.next (suc s.next) s.variables (omega arith) x,
          ),
          λ j n w h. h,
          k,
          λ j n w h. h,
        )

  keep_variable-Later :
      (id : NodeId) (s : Server S) → IsNodeId id → IsServer s → MakesLater s (keep_variable U id s)
  unfolding keep_variable
  keep_variable-Later id s v (o, m, x) =
      let (r, e, i, k, _) = emplace_lem id s.next s.variables v x in
      rw (e, keep_variable)
        (
          (
            IsRegistry-mono s.next (suc s.next) s.objects (omega arith) o,
            IsRegistry-mono s.next (suc s.next) s.methods (omega arith) m,
            i,
          ),
          λ j n w h. h,
          λ j n w h. h,
          k,
        )

  pub has_class-total :
      (c : UaNodeClass) (id : NodeId) (s : Server S)
      → IsNodeId id
      → (b : Bool) × (has_class U c id s ≡ ok b)
  unfolding has_class
  has_class-total c id s v =
      let (u, e) = from_node_id-total U.text id v in
      (
        if is_good (U.read_node_class s.ua u).0
            then class_eq (U.read_node_class s.ua u).1 c
            else false,
        rw (e, has_class) (if_ok (is_good (U.read_node_class s.ua u).0) _ _),
      )

  -- The shape of the three lookups: a hit changes nothing, a miss asks for the class.
  look_up-Later :
      (id : NodeId) (c : UaNodeClass) (r : Registry) (keep : NodeId → Server S → Made S)
      (s : Server S)
      → IsNodeId id
      → IsRegistry s.next r
      → IsServer s
      → MakesLater s (keep id s)
      → MakesLater s (do
        it ← find id r
        elim it [
          | some ptr ↦ ok (some ptr, s)
          | none ↦ do here ← has_class U c id s; if here then keep id s else ok (none, s)
        ])
  look_up-Later id c r keep s v ir i k =
      let (o, f, _) = find-Finds id s.next r v ir in
      let (b, h) = has_class-total c id s v in rw f (go o b h)
    where
      go :
          (o : Option Node) (b : Bool)
          → has_class U c id s ≡ ok b
          → MakesLater s (elim o [
            | some ptr ↦ ok (some ptr, s)
            | none ↦ do here ← has_class U c id s; if here then keep id s else ok (none, s)
          ])
      go (some n) b h = Later-refl s i
      go none true h = rw h k
      go none false h = rw h (Later-refl s i)

  pub get_object-Later :
      (id : NodeId) (s : Server S) → IsNodeId id → IsServer s → MakesLater s (get_object U id s)
  unfolding get_object
  get_object-Later id s v i =
      look_up-Later id class_object s.objects (keep_object U) s v i.0 i (keep_object-Later id s v i)

  pub get_method-Later :
      (id : NodeId) (s : Server S) → IsNodeId id → IsServer s → MakesLater s (get_method U id s)
  unfolding get_method
  get_method-Later id s v i =
      look_up-Later id class_method s.methods (keep_method U) s v i.1 i (keep_method-Later id s v i)

  pub get_variable-Later :
      (id : NodeId) (s : Server S) → IsNodeId id → IsServer s → MakesLater s (get_variable U id s)
  unfolding get_variable
  get_variable-Later id s v i =
      look_up-Later id class_variable s.variables (keep_variable U) s v i.2 i
        (keep_variable-Later id s v i)

  new_node-total :
      (requested parent : NodeId) (name : QualifiedName)
      → IsNodeId requested
      → IsNodeId parent
      → (n : NewNode) × (new_node U requested parent name ≡ ok n)
  unfolding new_node
  new_node-total requested parent name v w =
      let (r, e) = from_node_id-total U.text requested v in
      let (p, f) = from_node_id-total U.text parent w in
      (
        record {
          requested = r;
          parent = p;
          reference = U.names.has_component;
          browse_name = from_qualified_name U.text name;
        },
        rw (e, f),
      )

  -- The end of the functions that create a node: kept, or null.
  if_created :
      (b : Bool) (s : Server S) (x y : Made S)
      → MakesLater s x
      → MakesLater s y
      → MakesLater s (if b then x else y)
  if_created true s x y h k = h
  if_created false s x y h k = k

  pub create_object-Later :
      (parent requested type : NodeId) (name : QualifiedName) (context : Option ℕ) (s : Server S)
      → IsNodeId parent
      → IsNodeId requested
      → IsNodeId type
      → IsServer s
      → MakesLater s (create_object U parent requested type name context s)
  unfolding create_object
  create_object-Later parent requested type name context s p r t i =
      let (n, e) = new_node-total requested parent name r p in
      let (u, f) = from_node_id-total U.text type t in
      let a = U.add_object_node s.ua n u in
      rw (e, f, create_object)
        (if_created (is_good a.0) s _ _
          (keep_object-Later requested
            (record s { ua = U.set_node_context a.1 n.requested context }) r i)
          (Later-refl s i))

  pub create_method-Later :
      (obj method : NodeId) (name : QualifiedName) (inputs outputs : List UaArgument) (s : Server S)
      → IsNodeId obj
      → IsNodeId method
      → IsServer s
      → MakesLater s (create_method U obj method name inputs outputs s)
  unfolding create_method
  create_method-Later obj method name inputs outputs s p r i =
      let (n, e) = new_node-total method obj name r p in
      let a = U.add_method_node s.ua n inputs outputs in
      rw (e, create_method)
        (if_created (is_good a.0) s _ _ (keep_method-Later method (record s { ua = a.1 }) r i)
          (Later-refl s i))

  pub create_variable-Later :
      (parent requested type : NodeId) (name : QualifiedName) (attributes : UaVariableAttributes)
      (s : Server S)
      → IsNodeId parent
      → IsNodeId requested
      → IsNodeId type
      → IsServer s
      → MakesLater s (create_variable U parent requested type name attributes s)
  unfolding create_variable
  create_variable-Later parent requested type name attributes s p r t i =
      let (n, e) = new_node-total requested parent name r p in
      let (u, f) = from_node_id-total U.text type t in
      let a = U.add_variable_node s.ua n u attributes in
      rw (e, f, create_variable)
        (if_created (is_good a.0) s _ _ (keep_variable-Later requested (record s { ua = a.1 }) r i)
          (Later-refl s i))
