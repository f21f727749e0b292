-- ===== src/Base/Split.antt =====
-- Splitting at a byte and joining, of the package strings.
use Prim.Native.Nat.{ℕ}
use mathlib.Core.Path.{◌≡◌, refl, ap}
use mathlib.Core.Logic.{◌≢◌}
use mathlib.Core.List.{List, [], ◌∷◌, ◌++◌}
use native.Mathlib.Omega.{arith}
use knox_proxy.Base.Tests.{eqb, if◌then◌else◌}
use knox_proxy.Base.Lists.{All}
use knox_proxy.Base.Texts.{Str}

-- The byte joins the first of the parts.
cons_head : ℕ → List Str → List Str
cons_head c [] = (c ∷ []) ∷ []
cons_head c (w ∷ ws) = (c ∷ w) ∷ ws

-- strings.Split(s, sep), for a separator of one byte.
unfoldable pub split : ℕ → Str → List Str
unfolding cons_head
split sep [] = [] ∷ []
split sep (c ∷ s) = let rest = split sep s in if eqb c sep then [] ∷ rest else cons_head c rest

-- strings.Join(parts, sep)
unfoldable pub join : Str → List Str → Str
join sep [] = []
join sep (w ∷ []) = w
join sep (w ∷ v ∷ ws) = w ++ (sep ++ join sep (v ∷ ws))

-- No byte of the text is the separator.
abbrev pub IsFree : ℕ → Str → Type 0
IsFree sep s = All (λ c. c ≢ sep) s

cons_head-IsFree :
    (sep c : ℕ) (ws : List Str) → c ≢ sep → All (IsFree sep) ws → All (IsFree sep) (cons_head c ws)
unfolding cons_head
cons_head-IsFree sep c [] h k = ((h, tt), tt)
cons_head-IsFree sep c (w ∷ ws) h k = ((h, k.0), k.1)

pub split-IsFree : (sep : ℕ) (s : Str) → All (IsFree sep) (split sep s)
unfolding split
split-IsFree sep [] = (tt, tt)
split-IsFree sep (c ∷ s) = ground (arith, split-IsFree sep s, cons_head-IsFree sep c (split sep s))

pub split-ne-nil : (sep : ℕ) (s : Str) → split sep s ≢ []
unfolding split
split-ne-nil sep [] = cc
split-ne-nil sep (c ∷ s) = ground arith

join_one : (sep w : Str) → join sep (w ∷ []) ≡ w
unfolding join
join_one sep w = refl

join-cons_head :
    (sep : Str) (c : ℕ) (ws : List Str) → ws ≢ [] → join sep (cons_head c ws) ≡ c ∷ join sep ws
unfolding join cons_head
join-cons_head sep c [] h = absurd (h refl)
join-cons_head sep c (w ∷ []) h = refl
join-cons_head sep c (w ∷ v ∷ ws) h = refl

join-empty :
    (sep : ℕ) (ws : List Str) → ws ≢ [] → join (sep ∷ []) ([] ∷ ws) ≡ sep ∷ join (sep ∷ []) ws
unfolding join
join-empty sep [] h = absurd (h refl)
join-empty sep (w ∷ ws) h = refl

-- Joining what a string was split into gives the string back.
pub join-split : (sep : ℕ) (s : Str) → join (sep ∷ []) (split sep s) ≡ s
unfolding split
join-split sep [] = join_one (sep ∷ []) []
join-split sep (c ∷ s) = ground (
  arith,
  join-split sep s,
  join-cons_head (sep ∷ []) c (split sep s) (split-ne-nil sep s),
  join-empty sep (split sep s) (split-ne-nil sep s),
)

split-append : (sep : ℕ) (w s : Str) → IsFree sep w → split sep (w ++ sep ∷ s) ≡ w ∷ split sep s
unfolding split
split-append sep [] s h = ground arith
split-append sep (c ∷ w) s h = ground (arith, split-append sep w s h.1)

split_single : (sep : ℕ) (w : Str) → IsFree sep w → split sep w ≡ w ∷ []
unfolding split
split_single sep [] h = refl
split_single sep (c ∷ w) h = ground (arith, split_single sep w h.1)

pub split-join :
    (sep : ℕ) (w : Str) (ws : List Str)
    → All (IsFree sep) (w ∷ ws)
    → split sep (join (sep ∷ []) (w ∷ ws)) ≡ w ∷ ws
unfolding join
split-join sep w [] h = split_single sep w h.0
split-join sep w (v ∷ ws) h =
    rw (split-append sep w (join (sep ∷ []) (v ∷ ws)) h.0)
      (ap (λ r. w ∷ r) (split-join sep v ws h.1))
