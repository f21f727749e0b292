-- ===== src/Http.antt =====
-- What the program uses of net/http: requests, responses and header maps. A header's name is written
-- in the canonical form that net/http gives it, "Browser-Id" for "browser-id".
use knox_proxy.Base.{ℕ, Str, Option, none, some, List, [], ◌∷◌, ◌++◌, Map, lookup, insert, delete}

abbrev pub Header : Type 0
Header = Map (List Str)

abbrev pub first : Option (List Str) → Str
first (some (v ∷ _)) = v
first _ = []

-- Header.Get: the first value, or "".
unfoldable pub get : Str → Header → Str
get name header = first (lookup name header)

-- Header.Set replaces all values.
unfoldable pub set : Str → Str → Header → Header
set name value header = insert name (value ∷ []) header

-- Header.Del
unfoldable pub del : Str → Header → Header
del name header = delete name header

abbrev pub values : Option (List Str) → List Str
values none = []
values (some vs) = vs

-- Header.Add appends to the values.
unfoldable pub add : Str → Str → Header → Header
add name value header = insert name (values (lookup name header) ++ value ∷ []) header

pub record Request : Type 0 where
  pub method : Str
  pub host : Str
  pub scheme : Str
  pub url_host : Str
  -- URL.Path
  pub path : Str
  -- URL.RequestURI()
  pub uri : Str
  pub header : Header
  -- What reading the body gives: none is a read error.
  pub body : Option Str

pub record Response : Type 0 where
  pub status : ℕ
  pub header : Header
  pub body : Str

-- http.Error, without the headers that it sets.
abbrev pub plain_error : ℕ → Str → Response
plain_error status message = record { status = status; header = []; body = message }
