-- ===== src/Types/Names.antt =====
-- class QualifiedName, class LocalizedText and the text conversions of
-- modernopc/include/modernopc/types/String.h, with modernopc/src/types/QualifiedName.cpp and
-- modernopc/src/types/LocalizedText.cpp.
pub mod Conversion
use modern_opc.Base.{ℕ, ◌%◌, ◌^◌, Bytes, text, [], ◌++◌, decimal, ltb, length, if◌then◌else◌}
use modern_opc.Types.UaText.{UaText, UaQualifiedName, UaLocalizedText}

pub record QualifiedName : Type 0 where
  pub ns_idx : ℕ
  pub name : Bytes

-- The default constructor.
abbrev pub empty_qualified_name : QualifiedName
empty_qualified_name = record { ns_idx = 0; name = [] }

pub record LocalizedText : Type 0 where
  pub loc : Bytes
  pub txt : Bytes

-- fromUAString
unfoldable pub from_ua_string : Bytes → Bytes
from_ua_string s = if ltb 0 (length s) then s else []

-- fromQualifiedName
unfoldable pub from_qualified_name : UaText → QualifiedName → UaQualifiedName
from_qualified_name t qn = t.make_qualified_name qn.ns_idx qn.name

-- fromUAQualifiedName
unfoldable pub from_ua_qualified_name : UaQualifiedName → QualifiedName
unfolding from_ua_string
from_ua_qualified_name qn = record { ns_idx = qn.namespace_index; name = from_ua_string qn.name }

-- operator<< of a QualifiedName
unfoldable pub print_qualified_name : QualifiedName → Bytes
print_qualified_name qn = text "ns=" ++ (decimal qn.ns_idx ++ (text ";name=" ++ qn.name))

-- fromLocalizedText
unfoldable pub from_localized_text : UaText → LocalizedText → UaLocalizedText
from_localized_text t lt = t.alloc_localized_text lt.loc lt.txt

-- fromUALocalizedText
unfoldable pub from_ua_localized_text : UaLocalizedText → LocalizedText
from_ua_localized_text lt = record { loc = lt.locale; txt = lt.text }

-- operator<< of a LocalizedText
unfoldable pub print_localized_text : LocalizedText → Bytes
print_localized_text lt = text "locale=" ++ (lt.loc ++ (text ";text=" ++ lt.txt))
