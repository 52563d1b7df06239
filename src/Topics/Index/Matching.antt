-- ===== src/Topics/Index/Matching.antt =====
-- topics.go: which paths of the tree `scanSubscribers` visits for a topic, as a test on the levels.
use mqtt_server.Prelude.{Bool, false, not, ◌&&◌, ◌||◌, List, [], ◌∷◌, bytes_eq}
use mqtt_server.Packets.Codec.{Bytes}
use mqtt_server.Topics.Index.{plus_key, hash_key}

-- The path of a filter matches the levels of a topic: `#` at the end stands for any levels that are
-- left, `+` for one level, and after a level that is not `+` the end `/#` stands for no level too.
unfoldable pub matches : List Bytes → List Bytes → Bool
matches fs [] = false
matches [] (t ∷ ts) = false
matches (f ∷ []) (t ∷ []) = bytes_eq f t || bytes_eq f plus_key || bytes_eq f hash_key
matches (f ∷ g ∷ []) (t ∷ []) = bytes_eq f t && not (bytes_eq t plus_key) && bytes_eq g hash_key
matches (f ∷ g ∷ h ∷ fs) (t ∷ []) = false
matches (f ∷ []) (t ∷ u ∷ ts) = bytes_eq f hash_key
matches (f ∷ g ∷ fs) (t ∷ u ∷ ts) =
    (bytes_eq f t || bytes_eq f plus_key) && matches (g ∷ fs) (u ∷ ts)
