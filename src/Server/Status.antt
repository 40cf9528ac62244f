-- ===== src/Server/Status.antt =====
-- Status codes and node classes of open62541, class StatusCode
-- (modernopc/include/modernopc/StatusCode.h), and getNodeType (modernopc/src/nodes/Node.cpp).
use modern_opc.Base.{ℕ, ◌≡◌, ◌≢◌, Bool, true, false, not, refl, arith}

pub data UaStatusCode : Type 0 where
  good bad_no_data bad_method_invalid : UaStatusCode
  other_status : ℕ → UaStatusCode

-- status == UA_STATUSCODE_GOOD
abbrev pub is_good : UaStatusCode → Bool
is_good good = true
is_good _ = false

-- class StatusCode, over UA_StatusCode_isBad
pub record StatusCode : Type 0 where
  pub m_status : UaStatusCode

unfoldable pub is_bad : (UaStatusCode → Bool) → StatusCode → Bool
is_bad ua_is_bad s = ua_is_bad s.m_status

-- IsGood, and the conversion to bool
unfoldable pub is_good_code : (UaStatusCode → Bool) → StatusCode → Bool
unfolding is_bad
is_good_code ua_is_bad s = not (is_bad ua_is_bad s)

pub data UaNodeClass : Type 0 where
  class_unspecified class_object class_variable class_method class_object_type : UaNodeClass
  class_variable_type class_reference_type class_data_type class_view : UaNodeClass
  other_class : ℕ → UaNodeClass

-- enum class NodeType
pub data NodeType : Type 0 where
  type_unknown type_object type_object_type type_variable type_variable_type : NodeType
  type_data_type type_reference_type type_method type_view : NodeType

-- getNodeType
unfoldable pub get_node_type : UaNodeClass → NodeType
get_node_type class_variable = type_variable
get_node_type class_object = type_object
get_node_type class_method = type_method
get_node_type class_object_type = type_object_type
get_node_type class_reference_type = type_reference_type
get_node_type class_data_type = type_data_type
get_node_type class_view = type_view
get_node_type class_unspecified = type_unknown
get_node_type _ = type_unknown

-- nodeClass != UA_NODECLASS_… in the lookups of class Server
abbrev pub class_eq : UaNodeClass → UaNodeClass → Bool
class_eq class_object class_object = true
class_eq class_method class_method = true
class_eq class_variable class_variable = true
class_eq _ _ = false

-- The classes that getNodeType gives a type of their own: every class of the address space but
-- the variable types.
abbrev HasType : UaNodeClass → Type 0
HasType class_unspecified = ⊥
HasType class_variable_type = ⊥
HasType (other_class n) = ⊥
HasType _ = Unit {0}

-- getNodeType tells the classes of the address space apart, except that a variable type is
-- reported as UNKNOWN, though the enumeration has VARIABLETYPE; no class is reported as that.
pub get_node_type_faithful :
    (a b : UaNodeClass)
    → (get_node_type a ≢ type_variable_type)
      × (get_node_type class_variable_type ≡ type_unknown)
      × (HasType a → get_node_type a ≡ get_node_type b → a ≡ b)
unfolding get_node_type
get_node_type_faithful a b = (never a, refl, apart a b)
  where
    never : (a : UaNodeClass) → get_node_type a ≢ type_variable_type
    never class_variable e = cc
    never _ e = cc

    apart : (a b : UaNodeClass) → HasType a → get_node_type a ≡ get_node_type b → a ≡ b
    apart class_variable class_variable h e = refl
    apart class_object class_object h e = refl
    apart class_method class_method h e = refl
    apart class_object_type class_object_type h e = refl
    apart class_reference_type class_reference_type h e = refl
    apart class_data_type class_data_type h e = refl
    apart class_view class_view h e = refl
    apart _ _ h e = ground arith
