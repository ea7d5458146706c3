-- ===== src/MimeTypes.antt =====
-- src/mime_types.cpp.
use waspp.Base.{Bool, true, false, List, [], ◌∷◌, if◌then◌else◌, Bytes, codes, equal, is_empty}

pub record Mapping : Type 0 where
  pub extension : Bytes
  pub mime_type : Bytes

abbrev mappings : List Mapping
mappings =
    record { extension = codes "css"; mime_type = codes "text/css" }
    ∷ record { extension = codes "gif"; mime_type = codes "image/gif" }
    ∷ record { extension = codes "htm"; mime_type = codes "text/html" }
    ∷ record { extension = codes "html"; mime_type = codes "text/html" }
    ∷ record { extension = codes "ico"; mime_type = codes "image/x-icon" }
    ∷ record { extension = codes "jpg"; mime_type = codes "image/jpeg" }
    ∷ record { extension = codes "js"; mime_type = codes "application/javascript" }
    ∷ record { extension = codes "json"; mime_type = codes "application/json" }
    ∷ record { extension = codes "png"; mime_type = codes "image/png" }
    ∷ record { extension = codes "txt"; mime_type = codes "text/plain" }
    ∷ record { extension = codes "xhtml"; mime_type = codes "text/html" }
    ∷ record { extension = codes "xml"; mime_type = codes "application/xml" }
    ∷ []

unfoldable pub type_in : List Mapping → Bytes → Bytes
type_in [] extension = codes "application/octet-stream"
type_in (m ∷ ms) extension =
    if equal m.extension extension then m.mime_type else type_in ms extension

unfoldable pub extension_to_type : Bytes → Bytes
extension_to_type extension =
    if is_empty extension then codes "application/octet-stream" else type_in mappings extension

abbrev compressible : List Bytes
compressible =
    codes "css"
    ∷ codes "htm"
    ∷ codes "html"
    ∷ codes "js"
    ∷ codes "json"
    ∷ codes "txt"
    ∷ codes "xhtml"
    ∷ codes "xml"
    ∷ []

unfoldable pub contains : List Bytes → Bytes → Bool
contains [] s = false
contains (x ∷ xs) s = if equal x s then true else contains xs s

unfoldable pub is_compressible : Bytes → Bool
is_compressible extension = contains compressible extension
