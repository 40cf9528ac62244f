-- ===== src/Types/Names/Conversion.antt =====
-- The conversions of names and texts, there and back (modernopc/src/types).
use modern_opc.Base.{◌≡◌, refl, Bytes, [], ◌∷◌, c_string_id, IsNulFree, arith}
use modern_opc.Types.UaText.{UaText, ReadsCString}
use modern_opc.Types.Names.{
  QualifiedName, LocalizedText, from_ua_string, from_qualified_name, from_ua_qualified_name,
  from_localized_text, from_ua_localized_text,
}

pub from_ua_string_id : (s : Bytes) → from_ua_string s ≡ s
unfolding from_ua_string
from_ua_string_id [] = refl
from_ua_string_id (c ∷ s) = ground arith

-- Without NUL bytes a QualifiedName and a LocalizedText come back unchanged.
module _ (t : UaText) (r : ReadsCString t) where
  pub qualified_name_round_trip :
      (qn : QualifiedName)
      → IsNulFree qn.name
      → from_ua_qualified_name (from_qualified_name t qn) ≡ qn
  unfolding from_qualified_name from_ua_qualified_name
  qualified_name_round_trip qn h =
      rw (r.make_qualified_name_lem, from_ua_string_id, c_string_id qn.name h) refl

  pub localized_text_round_trip :
      (lt : LocalizedText)
      → IsNulFree lt.loc
      → IsNulFree lt.txt
      → from_ua_localized_text (from_localized_text t lt) ≡ lt
  unfolding from_localized_text from_ua_localized_text
  localized_text_round_trip lt h k =
      rw (r.alloc_localized_text_lem, c_string_id lt.loc h, c_string_id lt.txt k) refl
