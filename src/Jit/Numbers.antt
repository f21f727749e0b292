-- ===== src/Jit/Numbers.antt =====
-- Numbers in text, of the packages strconv and fmt, as knox-proxy/jit uses them.
use knox_proxy.Base.{
  zero, ◌^◌, ◌&&◌, leb, ltb, ◌||◌, ◌-◌, ◌%◌, eqb, ◌+◌, if◌then◌else◌, ◌*◌, ◌/◌, Option, suc, none,
  some, ◌∷◌, [], ℕ, Str,
}

-- The digits of n before those that are there; the fuel is more than n, and n falls.
digits : ℕ → ℕ → Str → Str
digits zero n acc = acc
digits (suc fuel) n acc =
    let rest = digits fuel (n / 10) ((b'0' + n % 10) ∷ acc) in
    if ltb n 10 then (b'0' + n) ∷ acc else rest

-- %d
unfoldable pub decimal : ℕ → Str
unfolding digits
decimal n = digits (suc n) n []

-- The value of the digits behind those that were read; none if a byte is no digit.
unfoldable pub read_digits : ℕ → Str → Option ℕ
read_digits n [] = some n
read_digits n (c ∷ s) =
    let rest = read_digits (n * 10 + (c - b'0')) s in
    if leb b'0' c && leb c b'9' then rest else none

unfoldable pub read_number : Str → Option ℕ
read_number [] = none
read_number (c ∷ s) = read_digits 0 (c ∷ s)

-- strconv.Atoi where it succeeds with a result that is not negative.
unfoldable pub atoi : Str → Option ℕ
unfolding read_number read_digits
atoi [] = none
atoi (c ∷ s) =
    let value = if eqb c b'+' || eqb c b'-' then read_number s else read_number (c ∷ s) in
    elim value [
      | none ↦ none
      | some n ↦ if leb (2 ^ 63) n || (eqb c b'-' && ltb 0 n) then none else some n
    ]

unfoldable pub parse_int_param : Str → ℕ → ℕ
unfolding atoi
parse_int_param s default_val = elim (atoi s) [ some v ↦ v | none ↦ default_val ]
