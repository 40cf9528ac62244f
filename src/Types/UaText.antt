-- ===== src/Types/UaText.antt =====
-- The constructors of open62541 for texts, which modernopc/src/types calls: code that is not part
-- of the repository, so a parameter.
use modern_opc.Base.{ℕ, ◌≡◌, Bytes, c_string}

pub record UaQualifiedName : Type 0 where
  pub namespace_index : ℕ
  pub name : Bytes

pub record UaLocalizedText : Type 0 where
  pub locale : Bytes
  pub text : Bytes

-- UA_STRING, UA_BYTESTRING, UA_QUALIFIEDNAME and UA_LOCALIZEDTEXT_ALLOC take a
-- `char *`, which is given as the text that it points to.
pub record UaText : Type 0 where
  pub make_string : Bytes → Bytes
  pub make_byte_string : Bytes → Bytes
  pub make_qualified_name : ℕ → Bytes → UaQualifiedName
  pub alloc_localized_text : Bytes → Bytes → UaLocalizedText

-- Each reads its text up to the terminating NUL, as open62541 documents.
pub record ReadsCString (t : UaText) : Type 0 where
  pub make_string_lem : (s : Bytes) → t.make_string s ≡ c_string s
  pub make_byte_string_lem : (s : Bytes) → t.make_byte_string s ≡ c_string s
  pub make_qualified_name_lem :
      (ns : ℕ) (s : Bytes)
      → t.make_qualified_name ns s ≡ record { namespace_index = ns; name = c_string s }
  pub alloc_localized_text_lem :
      (l s : Bytes) → t.alloc_localized_text l s ≡ record { locale = c_string l; text = c_string s }
