-- ===== src/Base/Texts.antt =====
-- Go's strings as sequences of bytes, and what the program uses of the package strings (splitting
-- and joining are in Split).
use Prim.Native.Char.{code}
use Prim.Native.Nat.{zero, suc, ℕ, ◌+◌, ◌-◌, ◌/◌, ◌%◌}
use Prim.Native.String.{String}
use mathlib.Core.Path.{◌≡◌, refl}
use mathlib.Core.Logic.{◌≢◌, ◌↔◌}
use mathlib.Core.Bool.{Bool, true, false, ◌&&◌, ◌||◌}
use mathlib.Core.List.{List, [], ◌∷◌, ◌++◌, reverse}
use native.Mathlib.Omega.{arith}
use knox_proxy.Base.Tests.{ltb, leb, eqb, if◌then◌else◌}
use knox_proxy.Base.Lists.{length, take, drop, drop-append}

abbrev pub Str : Type 0
Str = List ℕ

-- The UTF-8 bytes of one code point.
utf8 : ℕ → Str
utf8 c =
    if ltb c 0x80
    then c ∷ []
    else if ltb c 0x800
    then (0xc0 + c / 64) ∷ (0x80 + c % 64) ∷ []
    else if ltb c 0x10000
    then (0xe0 + c / 4096) ∷ (0x80 + c / 64 % 64) ∷ (0x80 + c % 64) ∷ []
    else (0xf0 + c / 262144) ∷ (0x80 + c / 4096 % 64) ∷ (0x80 + c / 64 % 64) ∷ (0x80 + c % 64) ∷ []

-- A string literal of the source.
unfoldable pub bytes : String → Str
unfolding utf8
bytes String.[] = []
bytes (String.◌∷◌ c s) = utf8 (code c) ++ bytes s

infix 50 ◌==◌
unfoldable pub ◌==◌ : Str → Str → Bool
[] == [] = true
[] == (d ∷ t) = false
(c ∷ s) == [] = false
(c ∷ s) == (d ∷ t) = eqb c d && s == t

pub eq_refl : (s : Str) → (s == s) ≡ true
unfolding ◌==◌
eq_refl [] = refl
eq_refl (c ∷ s) = ground (arith, eq_refl s)

eq_sound : (s t : Str) → (s == t) ≡ true → s ≡ t
unfolding ◌==◌
eq_sound [] [] h = refl
eq_sound [] (d ∷ t) h = cc
eq_sound (c ∷ s) [] h = cc
eq_sound (c ∷ s) (d ∷ t) h = ground (arith, eq_sound s t)

pub eq_iff : (s t : Str) → ((s == t) ≡ true) ↔ (s ≡ t)
eq_iff s t = (eq_sound s t, λ e. rw e (eq_refl t))

pub eq_false : (s t : Str) → s ≢ t → (s == t) ≡ false
eq_false s t h = ground (arith, eq_iff s t)

-- strings.HasPrefix(s, prefix)
unfoldable pub has_prefix : Str → Str → Bool
has_prefix s [] = true
has_prefix [] (d ∷ p) = false
has_prefix (c ∷ s) (d ∷ p) = eqb c d && has_prefix s p

-- strings.TrimPrefix(s, prefix)
unfoldable pub trim_prefix : Str → Str → Str
unfolding has_prefix
trim_prefix s p = if has_prefix s p then drop (length p) s else s

-- strings.HasSuffix(s, suffix)
unfoldable pub has_suffix : Str → Str → Bool
unfolding has_prefix
has_suffix s p = has_prefix (reverse s) (reverse p)

-- strings.TrimSuffix(s, suffix)
unfoldable pub trim_suffix : Str → Str → Str
unfolding has_suffix
trim_suffix s p = if has_suffix s p then take (length s - length p) s else s

-- strings.Contains(s, part)
unfoldable pub contains : Str → Str → Bool
unfolding has_prefix
contains [] p = has_prefix [] p
contains (c ∷ s) p = has_prefix (c ∷ s) p || contains s p

pub has_prefix-append : (p s : Str) → has_prefix (p ++ s) p ≡ true
unfolding has_prefix
has_prefix-append [] s = refl
has_prefix-append (c ∷ p) s = ground (arith, has_prefix-append p s)

pub has_prefix_elim : (s p : Str) → has_prefix s p ≡ true → s ≡ p ++ drop (length p) s
unfolding has_prefix
has_prefix_elim s [] h = refl
has_prefix_elim [] (d ∷ p) h = cc
has_prefix_elim (c ∷ s) (d ∷ p) h = ground (arith, has_prefix_elim s p)

pub trim_prefix-append : (p s : Str) → trim_prefix (p ++ s) p ≡ s
unfolding trim_prefix
trim_prefix-append p s = rw (has_prefix-append p s, drop-append p s)

-- strings.ToUpper, on ASCII bytes; net/http accepts no other byte in a method.
upper : ℕ → ℕ
upper c = if leb b'a' c && leb c b'z' then c - 32 else c

unfoldable pub to_upper : Str → Str
unfolding upper
to_upper [] = []
to_upper (c ∷ s) = upper c ∷ to_upper s

upper_idem : (c : ℕ) → upper (upper c) ≡ upper c
unfolding upper
upper_idem c = ground arith

to_upper-cons : (c : ℕ) (s : Str) → to_upper (c ∷ s) ≡ upper c ∷ to_upper s
unfolding to_upper
to_upper-cons c s = refl

pub to_upper_idem : (s : Str) → to_upper (to_upper s) ≡ to_upper s
to_upper_idem [] = unfold to_upper in refl
to_upper_idem (c ∷ s) = simp (to_upper-cons, upper_idem, to_upper_idem s)

-- The white space of unicode.IsSpace, in UTF-8.
abbrev spaces : List Str
spaces =
    (9 ∷ [])
    ∷ (10 ∷ [])
    ∷ (11 ∷ [])
    ∷ (12 ∷ [])
    ∷ (13 ∷ [])
    ∷ (32 ∷ [])
    ∷ (0xC2 ∷ 0x85 ∷ [])
    ∷ (0xC2 ∷ 0xA0 ∷ [])
    ∷ (0xE1 ∷ 0x9A ∷ 0x80 ∷ [])
    ∷ (0xE2 ∷ 0x80 ∷ 0x80 ∷ [])
    ∷ (0xE2 ∷ 0x80 ∷ 0x81 ∷ [])
    ∷ (0xE2 ∷ 0x80 ∷ 0x82 ∷ [])
    ∷ (0xE2 ∷ 0x80 ∷ 0x83 ∷ [])
    ∷ (0xE2 ∷ 0x80 ∷ 0x84 ∷ [])
    ∷ (0xE2 ∷ 0x80 ∷ 0x85 ∷ [])
    ∷ (0xE2 ∷ 0x80 ∷ 0x86 ∷ [])
    ∷ (0xE2 ∷ 0x80 ∷ 0x87 ∷ [])
    ∷ (0xE2 ∷ 0x80 ∷ 0x88 ∷ [])
    ∷ (0xE2 ∷ 0x80 ∷ 0x89 ∷ [])
    ∷ (0xE2 ∷ 0x80 ∷ 0x8A ∷ [])
    ∷ (0xE2 ∷ 0x80 ∷ 0xA8 ∷ [])
    ∷ (0xE2 ∷ 0x80 ∷ 0xA9 ∷ [])
    ∷ (0xE2 ∷ 0x80 ∷ 0xAF ∷ [])
    ∷ (0xE2 ∷ 0x81 ∷ 0x9F ∷ [])
    ∷ (0xE3 ∷ 0x80 ∷ 0x80 ∷ [])
    ∷ []

abbrev reversed_all : List Str → List Str
reversed_all [] = []
reversed_all (w ∷ ws) = reverse w ∷ reversed_all ws

-- How many bytes the first of the words that the text begins with has, 0 for none.
first_width : List Str → Str → ℕ
unfolding has_prefix
first_width [] s = 0
first_width (w ∷ ws) s = if has_prefix s w then length w else first_width ws s

-- The text without the words that it begins with; its first n bytes are the rest of such a word.
trim_words : List Str → ℕ → Str → Str
unfolding first_width
trim_words ws n [] = []
trim_words ws (suc n) (c ∷ s) = trim_words ws n s
trim_words ws zero (c ∷ s) = elim (first_width ws (c ∷ s)) [
  | zero ↦ c ∷ s
  | suc n ↦ trim_words ws n s
]

-- strings.TrimSpace(s): the space at the start, and, in the reversed text, that at the end
unfoldable pub trim_space : Str → Str
unfolding trim_words
trim_space s = reverse (trim_words (reversed_all spaces) 0 (reverse (trim_words spaces 0 s)))
