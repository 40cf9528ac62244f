-- ===== src/Server/Lookup/Objects.antt =====
-- Server::getObject (modernopc/src/Server.cpp) among other calls.
use modern_opc.Base.{
  Returns-map, All, suc, ◌≡◌, refl, ◌∙◌, Bool, true, false, if◌then◌else◌, Option, none, some, List,
  ok, Returns, subst,
}
use modern_opc.Types.NodeId.{NodeId, IsNodeId}
use modern_opc.Server.Status.{class_object}
use modern_opc.Server.Registry.{Node, find, Finds}
use modern_opc.Server.Registry.Laws.{emplace_lem, find-Finds}
use modern_opc.Server.Ua.{UaServer}
use modern_opc.Server.Nodes.{Server, keep_object, has_class, get_object}
use modern_opc.Server.Lookup.{IsServer, Later, MakesLater, get_object-Later, has_class-total}
use modern_opc.Server.Lookup.Requests.{Request, IsRequest, handle_all, handle_all-Later}

module _ {S : Type 0} (U : UaServer S) where
  pub get_object_cached :
      (id : NodeId) (n : Node) (s : Server S)
      → find id s.objects ≡ ok (some n)
      → get_object U id s ≡ ok (some n, s)
  unfolding get_object
  get_object_cached id n s h = rw (h, get_object)

  -- What a call of getObject leads to: a node that is now in the map, or null and no change.
  abbrev pub Answers : NodeId → Server S → Option Node → Server S → Type 0
  Answers id s none t =
      (t ≡ s) × (find id s.objects ≡ ok none) × (has_class U class_object id s ≡ ok false)
  Answers id s (some n) t = (n.id ≡ id) × (find id t.objects ≡ ok (some n))

  get_object_miss :
      (id : NodeId) (s : Server S) (b : Bool)
      → find id s.objects ≡ ok none
      → has_class U class_object id s ≡ ok b
      → get_object U id s ≡ (if b then keep_object U id s else ok (none, s))
  unfolding get_object
  get_object_miss id s b f h = rw (f, h, get_object)

  pub keep_object_new :
      (id : NodeId) (s : Server S)
      → IsNodeId id
      → IsServer s
      → find id s.objects ≡ ok none
      → (t : Server S) × (keep_object U id s ≡ ok (some (record { address = s.next; id = id }), t))
        × (find id t.objects ≡ ok (some (record { address = s.next; id = id })))
  unfolding keep_object
  keep_object_new id s v i f =
      let (r, e, _, _, g) = emplace_lem id s.next s.objects v i.0 in
      (record s { next = suc s.next; objects = r }, rw e, g f)

  get_object-Answers :
      (id : NodeId) (s : Server S)
      → IsNodeId id
      → IsServer s
      → (n : Option Node) × (t : Server S) × (get_object U id s ≡ ok (n, t)) × Answers id s n t
  get_object-Answers id s v i =
      let (o, f, g) = find-Finds id s.next s.objects v i.0 in
      let (b, h) = has_class-total U class_object id s v in go o f g b h
    where
      go :
          (o : Option Node)
          → find id s.objects ≡ ok o
          → Finds id s.next s.objects o
          → (b : Bool) → has_class U class_object id s ≡ ok b
          → (n : Option Node) × (t : Server S) × (get_object U id s ≡ ok (n, t)) × Answers id s n t
      go (some n) f g b h = (some n, s, get_object_cached id n s f, (g.0, f))
      go none f g true h =
          let (t, e, k) = keep_object_new id s v i f in
          (
            some (record { address = s.next; id = id }),
            t,
            get_object_miss id s true f h ∙ e,
            (refl, k),
          )
      go none f g false h = (none, s, get_object_miss id s false f h, (refl, f, h))

  -- getObject with a well-formed id ends without an exception. Either it answers null, and then
  -- the server is unchanged, the id is not in the map and open62541 knows no object of that id; or
  -- it answers a node of that id, and after any further calls it answers the same node again,
  -- with no change to the server.
  pub get_object_stable :
      (id : NodeId) (s : Server S) (qs : List Request)
      → IsNodeId id
      → IsServer s
      → All IsRequest qs
      → (n : Option Node) × (t : Server S) × (get_object U id s ≡ ok (n, t))
        × Answers id s n t
        × Returns
            (λ u. (m : Node) → n ≡ some m → get_object U id u ≡ ok (some m, u))
            (handle_all U qs t)
  get_object_stable id s qs v i h =
      let (n, t, e, a) = get_object-Answers id s v i in
      (n, t, e, a, later n t a (subst (MakesLater s) e (get_object-Later U id s v i)))
    where
      later :
          (n : Option Node) (t : Server S)
          → Answers id s n t
          → Later s t
          → Returns
              (λ u. (m : Node) → n ≡ some m → get_object U id u ≡ ok (some m, u))
              (handle_all U qs t)
      later n t a l =
          Returns-map (Later t) _ (handle_all U qs t)
            (λ u k m e. get_object_cached id m u (k.1 id m v (found n m a e)))
            (handle_all-Later U qs t h l.0)
        where
          found :
              (n : Option Node) (m : Node)
              → Answers id s n t
              → n ≡ some m
              → find id t.objects ≡ ok (some m)
          found none m a e = cc
          found (some k) m a e = a.1 ∙ cc e
