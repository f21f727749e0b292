-- ===== src/Policy/CleanPath/Laws.antt =====
-- What path.Clean makes of a rooted path.
use mathlib.Core.List.{append-nil, append_assoc, reverse-cons}
use knox_proxy.Base.{
  split-join, ◌==◌, ◌∎, ap, ◌≡⟨◌⟩◌, sym, eq_iff, split-IsFree, join, ◌++◌, All-reverse, eq_false,
  arith, split, reverse, ◌∷◌, IsFree, bytes, has_prefix, true, All, [], List, Str, ◌≡◌, ◌≢◌, refl,
}
use knox_proxy.Policy.CleanPath.{resolve, resolve_all, clean}

-- Neither empty, nor ".", nor "..", and without a slash.
abbrev pub IsPlain : Str → Type 0
IsPlain part = (part ≢ []) × (part ≢ bytes ".") × (part ≢ bytes "..") × IsFree b'/' part

resolve-IsPlain :
    (stack : List Str) (part : Str)
    → All IsPlain stack
    → IsFree b'/' part
    → All IsPlain (resolve true stack part)
unfolding resolve
resolve-IsPlain [] part h k =
    ground (arith, eq_iff part [], eq_iff part (bytes "."), eq_iff part (bytes ".."))
resolve-IsPlain (top ∷ below) part h k =
    ground (arith, eq_iff part [], eq_iff part (bytes "."), eq_iff part (bytes ".."))

resolve_plain :
    (stack : List Str) (part : Str) → IsPlain part → resolve true stack part ≡ part ∷ stack
unfolding resolve
resolve_plain stack part h =
    rw (eq_false part [] h.0, eq_false part (bytes ".") h.1, eq_false part (bytes "..") h.2)

resolve_all-IsPlain :
    (stack parts : List Str)
    → All IsPlain stack
    → All (IsFree b'/') parts
    → All IsPlain (resolve_all true stack parts)
unfolding resolve_all
resolve_all-IsPlain stack [] h k = All-reverse IsPlain stack h
resolve_all-IsPlain stack (part ∷ parts) h k =
    resolve_all-IsPlain (resolve true stack part) parts (resolve-IsPlain stack part h k.0) k.1

resolve_all_plain :
    (stack parts : List Str)
    → All IsPlain parts
    → resolve_all true stack parts ≡ reverse stack ++ parts
unfolding resolve_all
resolve_all_plain stack [] h = sym (append-nil (reverse stack))
resolve_all_plain stack (part ∷ parts) h =
    resolve_all true (resolve true stack part) parts
    ≡⟨ ap (λ s. resolve_all true s parts) (resolve_plain stack part h.0) ⟩
      resolve_all true (part ∷ stack) parts
    ≡⟨ resolve_all_plain (part ∷ stack) parts h.1 ⟩ reverse (part ∷ stack) ++ parts
    ≡⟨ (simp (reverse-cons, append_assoc)) ⟩ reverse stack ++ part ∷ parts ∎

-- The elements of a rooted path's clean form.
elements : Str → List Str
elements path = resolve_all true [] (split b'/' path)

clean_rooted :
    (path : Str)
    → has_prefix path (b'/' ∷ []) ≡ true
    → clean path ≡ b'/' ∷ join (b'/' ∷ []) (elements path)
unfolding elements clean bytes
clean_rooted path h = rw h

elements-IsPlain : (path : Str) → All IsPlain (elements path)
unfolding elements
elements-IsPlain path = resolve_all-IsPlain [] (split b'/' path) tt (split-IsFree b'/' path)

-- The clean form of a rooted path is "/" before elements joined by "/", none of which is empty, "."
-- or "..", or holds a slash.
pub clean-IsPlain :
    (path : Str)
    → has_prefix path (b'/' ∷ []) ≡ true
    → (parts : List Str) × All IsPlain parts × (clean path ≡ b'/' ∷ join (b'/' ∷ []) parts)
clean-IsPlain path h = (elements path, elements-IsPlain path, clean_rooted path h)

IsPlain-IsFree : (parts : List Str) → All IsPlain parts → All (IsFree b'/') parts
IsPlain-IsFree [] h = tt
IsPlain-IsFree (w ∷ ws) h = (h.0.3, IsPlain-IsFree ws h.1)

skip_empty :
    (stack parts : List Str) → resolve_all true stack ([] ∷ parts) ≡ resolve_all true stack parts
unfolding resolve_all resolve ◌==◌
skip_empty stack parts = refl

split_rooted : (s : Str) → split b'/' (b'/' ∷ s) ≡ [] ∷ split b'/' s
unfolding split
split_rooted s = refl

elements-join :
    (parts : List Str) → All IsPlain parts → elements (b'/' ∷ join (b'/' ∷ []) parts) ≡ parts
unfolding elements
elements-join [] h = unfold join split in rw (skip_empty, skip_empty) (unfold resolve_all in refl)
elements-join (w ∷ ws) h =
    rw (split_rooted, skip_empty, split-join b'/' w ws (IsPlain-IsFree (w ∷ ws) h))
      (resolve_all_plain [] (w ∷ ws) h)

-- Cleaning a rooted path a second time changes nothing.
pub clean_idem : (path : Str) → has_prefix path (b'/' ∷ []) ≡ true → clean (clean path) ≡ clean path
clean_idem path h =
    clean (clean path)
    ≡⟨ ap clean (clean_rooted path h) ⟩ clean (b'/' ∷ join (b'/' ∷ []) (elements path))
    ≡⟨ clean_rooted (b'/' ∷ join (b'/' ∷ []) (elements path)) (unfold has_prefix in refl) ⟩
      b'/' ∷ join (b'/' ∷ []) (elements (b'/' ∷ join (b'/' ∷ []) (elements path)))
    ≡⟨ ap (λ ps. b'/' ∷ join (b'/' ∷ []) ps)
        (elements-join (elements path) (elements-IsPlain path)) ⟩
      b'/' ∷ join (b'/' ∷ []) (elements path)
    ≡⟨ sym (clean_rooted path h) ⟩ clean path ∎
