-- ===== src/Json.antt =====
-- Decoded JSON, as encoding/json gives it in an interface{}: what the program inspects of request
-- bodies and of Vault's answers. Decoding itself is a parameter of the functions that call it.
use knox_proxy.Base.{ℕ, Str, Bool, Option, none, some, List, [], ◌∷◌, Map}

mutual
  pub data Json : Type 0 where
    null : Json
    bool : Bool → Json
    num : ℕ → Json
    str : Str → Json
    arr : Items → Json
    obj : Fields → Json

  pub data Items : Type 0 where
    nil : Items
    cons : Json → Items → Items

  pub data Fields : Type 0 where
    end : Fields
    field : Str → Json → Fields → Fields

abbrev pub items : Items → List Json
items nil = []
items (cons v vs) = v ∷ items vs

abbrev pub fields : Fields → Map Json
fields end = []
fields (field k v fs) = (k, v) ∷ fields fs

-- v.(string), where a missing value is no string.
abbrev pub as_string : Option Json → Option Str
as_string (some (str s)) = some s
as_string _ = none

-- v.(map[string]interface{})
abbrev pub as_object : Option Json → Option (Map Json)
as_object (some (obj fs)) = some (fields fs)
as_object _ = none

-- v.([]interface{})
abbrev pub as_array : Option Json → Option (List Json)
as_array (some (arr vs)) = some (items vs)
as_array _ = none

-- json.Unmarshal into a map[string]interface{}: none is an error.
abbrev pub Decode : Type 0
Decode = Str → Option (Map Json)
