-- ===== src/Jit/Validate/Access.antt =====
-- How long the text of the access types is (knox-proxy/jit/handler.go, the column of
-- knox-proxy/jit/db.go).
use knox_proxy.Base.{
  sym, ap, Bool-cases, ◌∙◌, suc, ◌≢◌, ◌⊎◌, ◌*◌, length, ◌+◌, ◌≡◌, All, ◌≤◌, ◌++◌, List, bytes, join,
  Str, inr, inl, refl, ◌∷◌, [], arith,
}
use knox_proxy.Jit.Schema.{characters}
use knox_proxy.Jit.Validate.{str_le, insert_sorted, access_type_text, sort_strings}

pub characters-append : (s t : Str) → characters (s ++ t) ≡ characters s + characters t
unfolding characters
characters-append [] t = omega arith
characters-append (c ∷ s) t = ground (arith, characters-append s t)

pub characters-le : (s : Str) → characters s ≤ length s
unfolding characters
characters-le [] = omega arith
characters-le (c ∷ s) = ground (arith, characters-le s)

abbrev IsShort : Str → Type 0
IsShort w = (3 ≤ characters w) × (characters w ≤ 4)

insert_sorted-All :
    (s : Str) (ts : List Str)
    → IsShort s
    → All IsShort ts
    → All IsShort (insert_sorted s ts) × (length (insert_sorted s ts) ≡ suc (length ts))
unfolding insert_sorted
insert_sorted-All s [] p h = ((p, tt), refl)
insert_sorted-All s (t ∷ ts) p (q, h) = elim (Bool-cases (str_le s t)) [
  | inl e ↦ rw e ((p, (q, h)), refl)
  | inr e ↦ let (all, count) = insert_sorted-All s ts p h in rw e ((q, all), ap suc count)
]

sort_strings-All :
    (ss : List Str)
    → All IsShort ss
    → All IsShort (sort_strings ss) × (length (sort_strings ss) ≡ length ss)
unfolding sort_strings
sort_strings-All [] h = (tt, refl)
sort_strings-All (s ∷ ss) (p, h) =
    let (all, count) = sort_strings-All ss h in
    let (all', count') = insert_sorted-All s (sort_strings ss) p all in
    (all', count' ∙ ap suc count)

-- Three or four characters each, and a comma between two.
joined :
    (w : Str) (ws : List Str)
    → IsShort w
    → All IsShort ws
    → (4 * length ws + 3 ≤ characters (join (bytes ",") (w ∷ ws)))
      × (characters (join (bytes ",") (w ∷ ws)) ≤ 5 * length ws + 4)
unfolding join bytes characters
joined w [] p h = (omega (arith, p), omega (arith, p))
joined w (v ∷ ws) p (q, h) =
    let rest = joined v ws q h in
    rw (characters-append w (44 ∷ join (44 ∷ []) (v ∷ ws)))
      (omega (arith, p, rest), omega (arith, p, rest))

type-IsShort : (at : Str) → (at ≡ bytes "run") ⊎ (at ≡ bytes "edit") → IsShort at
unfolding bytes characters
type-IsShort at (inl e) = rw e (omega arith, omega arith)
type-IsShort at (inr e) = rw e (omega arith, omega arith)

types-IsShort :
    (ats : List Str) → All (λ at. (at ≡ bytes "run") ⊎ (at ≡ bytes "edit")) ats → All IsShort ats
types-IsShort [] h = tt
types-IsShort (at ∷ ats) (p, h) = (type-IsShort at p, types-IsShort ats h)

empty : (ss : List Str) → length ss ≡ 0 → ss ≡ []
empty [] h = refl
empty (s ∷ ss) h = absurd (omega (arith, h))

sized :
    (ss : List Str)
    → All IsShort ss
    → ss ≢ []
    → (4 * length ss ≤ characters (join (bytes ",") ss) + 1)
      × (characters (join (bytes ",") ss) + 1 ≤ 5 * length ss)
sized [] h some_access = absurd (some_access refl)
sized (w ∷ ws) (p, h) some_access =
    let (low, high) = joined w ws p h in (omega (arith, low), omega (arith, high))

-- Between 4 n - 1 and 5 n - 1 characters for n access types.
pub access_type_text-size :
    (ats : List Str)
    → All (λ at. (at ≡ bytes "run") ⊎ (at ≡ bytes "edit")) ats
    → ats ≢ []
    → (4 * length ats ≤ characters (access_type_text ats) + 1)
      × (characters (access_type_text ats) + 1 ≤ 5 * length ats)
unfolding access_type_text
access_type_text-size ats h some_access =
    let (all, count) = sort_strings-All ats (types-IsShort ats h) in
    rw (← count)
      (sized (sort_strings ats) all (λ e. some_access (empty ats (sym count ∙ ap length e))))
