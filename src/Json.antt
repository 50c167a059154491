-- ===== src/Json.antt =====
-- The values that the server hands to encoding/json: `gin.H`, slices and what stands in them. A map
-- is its entries in the order of the source, which `json.Marshal` then sorts.
use happy_server_lite.Base.{ℕ, GoString, Bool, Option, none, some, List, [], ◌∷◌}

mutual
  pub data Json : Type 0 where
    null : Json
    bool : Bool → Json
    -- an integer, as its 64-bit pattern
    number : ℕ → Json
    string : GoString → Json
    array : Elements → Json
    object : Entries → Json

  pub data Elements : Type 0 where
    nil : Elements
    cons : Json → Elements → Elements

  pub data Entries : Type 0 where
    end : Entries
    entry : GoString → Json → Entries → Entries

abbrev pub entries : List (GoString × Json) → Entries
entries [] = end
entries ((k, v) ∷ rest) = entry k v (entries rest)

abbrev elements : List Json → Elements
elements [] = nil
elements (v ∷ vs) = cons v (elements vs)

-- `gin.H{...}`
abbrev pub obj : List (GoString × Json) → Json
obj kvs = object (entries kvs)

abbrev pub arr : List Json → Json
arr vs = array (elements vs)

-- a `*string`
abbrev pub optional : Option GoString → Json
optional none = null
optional (some s) = string s
