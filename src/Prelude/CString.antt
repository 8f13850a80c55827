-- ===== src/Prelude/CString.antt =====
-- C strings in a byte buffer, and `strtoul`.
use Prim.Native.Nat.{ℕ, ◌+◌, ◌-◌, ◌*◌, ◌%◌, ◌^◌}
use mathlib.Core.Bool.{Bool, true, false, ◌&&◌, ◌||◌}
use mathlib.Core.List.{List, [], ◌∷◌}
use redisraft.Prelude.Tests.{◌==◌, leb, if◌then◌else◌}

-- the bytes before the first NUL
unfoldable pub c_string : List ℕ → List ℕ
c_string [] = []
c_string (c ∷ s) = let rest = c_string s in if c == 0 then [] else c ∷ rest

abbrev pub is_digit : ℕ → Bool
is_digit c = leb 48 c && leb c 57

-- space, \t, \n, \v, \f, \r
abbrev pub is_space : ℕ → Bool
is_space c = c == 32 || (leb 9 c && leb c 13)

unfoldable pub skip_spaces : List ℕ → List ℕ
skip_spaces [] = []
skip_spaces (c ∷ s) = let rest = skip_spaces s in if is_space c then rest else c ∷ s

-- the number that the leading digits spell, after `acc`, and what is behind them
unfoldable pub scan_digits : ℕ → List ℕ → ℕ × List ℕ
scan_digits acc [] = (acc, [])
scan_digits acc (c ∷ s) =
    let next = scan_digits (acc * 10 + (c - 48)) s in if is_digit c then next else (acc, c ∷ s)

abbrev pub sign_of : List ℕ → Bool × List ℕ
sign_of [] = (false, [])
sign_of (c ∷ s) = if c == 45 then (true, s) else if c == 43 then (false, s) else (false, c ∷ s)

abbrev pub starts_with_digit : List ℕ → Bool
starts_with_digit [] = false
starts_with_digit (c ∷ s) = is_digit c

abbrev pub to_ulong : Bool → ℕ → ℕ
to_ulong negative v =
    if leb (2 ^ 64) v then 2 ^ 64 - 1 else if negative then (2 ^ 64 - v) % 2 ^ 64 else v

-- `strtoul(s, &end, 10)`: the value, and the string at `end`. A value out of range is ULONG_MAX, and
-- a minus sign negates in the unsigned type.
unfoldable pub strtoul : List ℕ → ℕ × List ℕ
strtoul s =
    let (negative, body) = sign_of (skip_spaces s) in
    if starts_with_digit body
    then (let (v, end) = scan_digits 0 body in (to_ulong negative v, end))
    else (0, s)
