-- ===== src/Store/State/Keys.antt =====
-- A composed key determines the user and the rest, if no user identifier holds a bar. (Identifiers
-- are UUIDs, which hold none.)
use happy_server_lite.Base.{GoString, ◌≡◌, ◌≢◌, refl, [], ◌∷◌}
use happy_server_lite.Store.State.{user_tag_key}

abbrev pub NoBar : GoString → Type 0
NoBar [] = Unit {0}
NoBar (c ∷ s) = (c ≢ b'|') × NoBar s

-- Two users without a bar in their identifiers never share a composed key, and one user's key
-- determines the rest.
pub user_tag_key-injective :
    (u v t w : GoString)
    → NoBar u
    → NoBar v
    → user_tag_key u t ≡ user_tag_key v w
    → (u ≡ v) × (t ≡ w)
unfolding user_tag_key
user_tag_key-injective [] [] t w a b h = (refl, cc)
user_tag_key-injective [] (d ∷ v) t w a b h = absurd (b.0 (cc))
user_tag_key-injective (c ∷ u) [] t w a b h = absurd (a.0 (cc))
user_tag_key-injective (c ∷ u) (d ∷ v) t w a b h =
    let (p, q) = user_tag_key-injective u v t w a.1 b.1 (cc) in (cc, q)
