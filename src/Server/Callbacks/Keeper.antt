-- ===== src/Server/Callbacks/Keeper.antt =====
-- A small server of open62541 that keeps the contexts of numeric ids. The nodes of namespace 0 are
-- objects, the others are methods.
use modern_opc.Base.{
  ℕ, zero, suc, ◌≡◌, refl, ap, ◌⊎◌, inl, inr, Bool, true, false, Bool-cases, ◌==◌, ==_iff, ==_refl,
  ◌&&◌, if◌then◌else◌, Option, none, some, [], arith,
}
use modern_opc.Types.Tests.{c_text}
use modern_opc.Types.NodeId.{UaNodeId, UaIdentifier, ua_numeric}
use modern_opc.Variant.{UaVariant}
use modern_opc.Server.Status.{
  good, other_status, is_good, class_method, class_unspecified, UaNodeClass, UaStatusCode,
}
use modern_opc.Server.Ua.{UaServer}
use modern_opc.Server.Tests.{small}
use modern_opc.Server.Callbacks.Steps.{KeepsContexts}

-- The nodes that are known, each with its context.
abbrev pub Nodes : Type 0
Nodes = ℕ → ℕ → Option (Option ℕ)

abbrev pub at_id : Nodes → ℕ → UaIdentifier → Option (Option ℕ)
at_id s ns (ua_numeric n) = s ns n
at_id s ns _ = none

abbrev pub put : Nodes → ℕ → ℕ → Option ℕ → Nodes
put s ns n c a b = if (a == ns) && (b == n) then some c else s a b

abbrev pub context_of : Option (Option ℕ) → Option ℕ
context_of none = none
context_of (some c) = c

abbrev pub is_known : Option (Option ℕ) → Bool
is_known none = false
is_known (some c) = true

-- UA_Server_setNodeContext, which refuses a node that is not known
abbrev pub put_known : Bool → Nodes → ℕ → ℕ → Option ℕ → Nodes
put_known true s ns n c = put s ns n c
put_known false s ns n c = s

abbrev pub put_at : Nodes → ℕ → UaIdentifier → Option ℕ → Nodes
put_at s ns (ua_numeric n) c = put_known (is_known (s ns n)) s ns n c
put_at s ns _ c = s

abbrev add_at : Nodes → ℕ → UaIdentifier → UaStatusCode × Nodes
add_at s (suc k) (ua_numeric n) = (good, put s (suc k) n none)
add_at s ns _ = (other_status 1, s)

abbrev pub is_method_at : Nodes → ℕ → UaIdentifier → Bool
is_method_at s zero i = false
is_method_at s (suc k) i = is_known (at_id s (suc k) i)

abbrev pub keeper : UaServer Nodes
keeper = record {
  names = small.names;
  text = c_text;
  add_object_node = λ s n t. (other_status 1, s);
  add_method_node = λ s n i o. add_at s n.requested.namespace_index n.requested.identifier;
  add_variable_node = λ s n t a. (other_status 1, s);
  read_node_class = λ s u.
      if is_method_at s u.namespace_index u.identifier
      then (good, class_method)
      else (other_status 1, class_unspecified);
  set_node_context = λ s u c. put_at s u.namespace_index u.identifier c;
  set_data_source = λ s u. s;
  set_method_callback = λ s u. s;
  read_value = λ s u. (other_status 1, UaVariant.empty);
  write_value = λ s u v. (good, s);
  translate_browse_path = λ s u p. record { status_code = other_status 1; targets = [] };
}

put_same : (s : Nodes) (ns n : ℕ) (c : Option ℕ) → put s ns n c ns n ≡ some c
put_same s ns n c = rw (==_refl ns, ==_refl n) refl

put_cases :
    (s : Nodes) (ns n a b : ℕ) (c : Option ℕ) → ((a ≡ ns) × (b ≡ n)) ⊎ (put s ns n c a b ≡ s a b)
put_cases s ns n a b c = elim (Bool-cases (a == ns)) [
  | inl e ↦ elim (Bool-cases (b == n)) [
    | inl f ↦ inl ((==_iff a ns).0 e, (==_iff b n).0 f)
    | inr f ↦ inr (rw (e, f) refl)
  ]
  | inr e ↦ inr (rw e refl)
]

abbrev pub ua_id : ℕ → UaIdentifier → UaNodeId
ua_id ns i = record { namespace_index = ns; identifier = i }

pub set_same :
    (s : Nodes) (ns : ℕ) (i : UaIdentifier) (c : Option ℕ)
    → is_known (at_id s ns i) ≡ true
    → context_of (at_id (put_at s ns i c) ns i) ≡ c
set_same s ns (ua_numeric n) c h = rw (h, put_same s ns n c) refl
set_same s ns _ c h = cc h

known_put :
    (s : Nodes) (ns n ms m : ℕ) (c : Option ℕ)
    → is_known (s ms m) ≡ true
    → is_known (put s ns n c ms m) ≡ true
known_put s ns n ms m c h = ground arith

-- Where a node is set that is known, the nodes are what they were.
known_set :
    (s : Nodes) (ns n ms m : ℕ) (c : Option ℕ)
    → is_known (s ns n) ≡ true
    → is_known (put s ns n c ms m) ≡ is_known (s ms m)
known_set s ns n ms m c h = elim (put_cases s ns n ms m c) [
  | inl g ↦ rw (g.0, g.1, put_same s ns n c, h) refl
  | inr g ↦ ap is_known g
]

pub method-known :
    (s : Nodes) (ns : ℕ) (i : UaIdentifier)
    → is_method_at s ns i ≡ true
    → is_known (at_id s ns i) ≡ true
method-known s zero i h = cc h
method-known s (suc k) i h = h

pub other :
    (s : Nodes) (ns : ℕ) (i : UaIdentifier) (ms : ℕ) (j : UaIdentifier) (c : Option ℕ)
    → (ua_id ms j ≡ ua_id ns i)
      ⊎ (context_of (at_id (put_at s ns i c) ms j) ≡ context_of (at_id s ms j))
other s ns (ua_numeric n) ms (ua_numeric m) c = elim (Bool-cases (is_known (s ns n))) [
  | inl k ↦ elim (put_cases s ns n ms m c) [
    | inl h ↦ inl (cc (h.0, h.1))
    | inr h ↦ inr (rw k (ap context_of h))
  ]
  | inr k ↦ inr (rw k refl)
]
other s ns _ ms (ua_numeric m) c = inr refl
other s ns i ms _ c = inr refl

pub method_set :
    (s : Nodes) (ns : ℕ) (i : UaIdentifier) (ms : ℕ) (j : UaIdentifier) (c : Option ℕ)
    → is_method_at (put_at s ns i c) ms j ≡ is_method_at s ms j
method_set s ns i zero j c = refl
method_set s ns (ua_numeric n) (suc l) (ua_numeric m) c = elim (Bool-cases (is_known (s ns n))) [
  | inl k ↦ rw k (known_set s ns n (suc l) m c k)
  | inr k ↦ rw k refl
]
method_set s ns _ (suc l) (ua_numeric m) c = refl
method_set s ns i (suc l) _ c = refl

pub added :
    (s : Nodes) (ns : ℕ) (i : UaIdentifier) (ms : ℕ) (j : UaIdentifier)
    → ((context_of (at_id (add_at s ns i).1 ms j) ≡ context_of (at_id s ms j))
        × (is_method_at (add_at s ns i).1 ms j ≡ is_method_at s ms j))
      ⊎ ((ua_id ms j ≡ ua_id ns i) × (context_of (at_id (add_at s ns i).1 ms j) ≡ none))
added s (suc k) (ua_numeric n) zero (ua_numeric m) = elim (put_cases s (suc k) n zero m none) [
  | inl h ↦ absurd (omega (arith, h.0))
  | inr h ↦ inl (ap context_of h, refl)
]
added s (suc k) (ua_numeric n) (suc l) (ua_numeric m) =
    elim (put_cases s (suc k) n (suc l) m none) [
      | inl h ↦ inr (cc (h.0, h.1), rw (h.0, h.1, put_same s (suc k) n none) refl)
      | inr h ↦ inl (ap context_of h, ap is_known h)
    ]
added s ns _ ms (ua_numeric m) = inl (refl, refl)
added s ns i zero _ = inl (refl, refl)
added s ns i (suc l) _ = inl (refl, refl)

pub method_added :
    (s : Nodes) (ns : ℕ) (i : UaIdentifier) (ms : ℕ) (j : UaIdentifier)
    → is_method_at s ms j ≡ true
    → is_method_at (add_at s ns i).1 ms j ≡ true
method_added s ns i zero j h = cc h
method_added s (suc k) (ua_numeric n) (suc l) (ua_numeric m) h =
    known_put s (suc k) n (suc l) m none h
method_added s ns i (suc l) _ h = h

pub added_method :
    (s : Nodes) (ns : ℕ) (i : UaIdentifier)
    → is_good (add_at s ns i).0 ≡ true
    → is_method_at (add_at s ns i).1 ns i ≡ true
added_method s (suc k) (ua_numeric n) h = rw (put_same s (suc k) n none) refl
added_method s ns _ h = cc h

pub read :
    (b : Bool)
    → is_good (
        (if◌then◌else◌ {A = UaStatusCode × UaNodeClass} b
          (good, class_method)
          (other_status 1, class_unspecified)).0)
      ≡ true
    → b ≡ true
read true h = refl
read false h = cc h

abbrev pub keeper-KeepsContexts : KeepsContexts keeper
keeper-KeepsContexts = record {
  context = λ s u. context_of (at_id s u.namespace_index u.identifier);
  known = λ s u. is_known (at_id s u.namespace_index u.identifier);
  is_method = λ s u. is_method_at s u.namespace_index u.identifier;
  method-known = λ s u h. method-known s u.namespace_index u.identifier h;
  context-set = λ s u c h. set_same s u.namespace_index u.identifier c h;
  context-set_other =
      λ s u v c. other s u.namespace_index u.identifier v.namespace_index v.identifier c;
  method-set =
      λ s u v c. method_set s u.namespace_index u.identifier v.namespace_index v.identifier c;
  context-callback = λ s u v. refl;
  method-callback = λ s u v. refl;
  known-source = λ s u v h. h;
  context-add = λ s n ins outs v.
      added s n.requested.namespace_index n.requested.identifier v.namespace_index v.identifier;
  method-add = λ s n ins outs v h.
      method_added s n.requested.namespace_index n.requested.identifier v.namespace_index
        v.identifier h;
  add-method =
      λ s n ins outs h p. added_method s n.requested.namespace_index n.requested.identifier h;
  read-method = λ s u h c. read (is_method_at s u.namespace_index u.identifier) h;
}
