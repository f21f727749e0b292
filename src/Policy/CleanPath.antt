-- ===== src/Policy/CleanPath.antt =====
-- path.Clean of the standard library, which Evaluate (knox-proxy/policy/engine.go) applies to the
-- request path: the shortest path that is lexically the same.
pub mod Laws
use knox_proxy.Base.{
  Str, Bool, true, false, not, ◌&&◌, ◌||◌, List, [], ◌∷◌, ◌++◌, reverse, bytes, ◌==◌, has_prefix,
  split, join, if◌then◌else◌,
}

-- One element; the stack has its top at the head. Above a root ".." is dropped, and in a relative
-- path it stays where nothing is left to remove.
unfoldable pub resolve : Bool → List Str → Str → List Str
resolve rooted stack part =
    if part == [] || part == bytes "."
    then stack
    else if part == bytes ".."
    then (elim stack [
      | [] ↦ if rooted then [] else part ∷ []
      | top ∷ below ↦ if not rooted && top == bytes ".." then part ∷ top ∷ below else below
    ])
    else part ∷ stack

unfoldable pub resolve_all : Bool → List Str → List Str → List Str
unfolding resolve
resolve_all rooted stack [] = reverse stack
resolve_all rooted stack (part ∷ parts) = resolve_all rooted (resolve rooted stack part) parts

unfoldable pub clean : Str → Str
unfolding resolve_all bytes
clean path =
    let rooted = has_prefix path (b'/' ∷ []) in
    let body = join (b'/' ∷ []) (resolve_all rooted [] (split b'/' path)) in
    if rooted then b'/' ∷ body else if body == [] then bytes "." else body
