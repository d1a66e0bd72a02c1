-- ===== src/SignalServer/MimeTypes.antt =====
-- signal_server/mime_types.cpp.
use webrtc_snippets.Common.{List, [], ◌∷◌, if◌then◌else◌}
use webrtc_snippets.Common.Bytes.{Bytes, codes, equal}

-- `mappings`.
abbrev pub mappings : List (Bytes × Bytes)
mappings =
    (codes "gif", codes "image/gif")
    ∷ (codes "htm", codes "text/html")
    ∷ (codes "html", codes "text/html")
    ∷ (codes "jpg", codes "image/jpeg")
    ∷ (codes "png", codes "image/png")
    ∷ []

unfoldable pub find_type : List (Bytes × Bytes) → Bytes → Bytes
unfolding equal
find_type [] extension = codes "text/plain"
find_type ((e, t) ∷ rest) extension = if equal e extension then t else find_type rest extension

unfoldable pub extension_to_type : Bytes → Bytes
extension_to_type extension = find_type mappings extension
