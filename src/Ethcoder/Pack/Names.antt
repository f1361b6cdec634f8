-- ===== src/Ethcoder/Pack/Names.antt =====
-- ethcoder/solidity_pack.go: the regular expressions of the names of types, and strconv.ParseInt of
-- what they take out of them. A name is ASCII.
pub mod Brackets
use ethkit.Prelude.{
  ℕ, suc, ◌+◌, ◌-◌, ◌*◌, ◌^◌, Bool, true, false, ◌&&◌, not, Option, none, some, List, [], ◌∷◌, take,
  drop, length, ltb, leb, ◌==◌, if◌then◌else◌,
}
use ethkit.Ethcoder.Text.{Text, codes, is_empty, contains, last_index}

abbrev is_digit : ℕ → Bool
is_digit c = leb 48 c && leb c 57

unfoldable pub all_digits : Text → Bool
all_digits [] = true
all_digits (c ∷ cs) = is_digit c && all_digits cs

-- what stands behind a prefix
strip : Text → Text → Option Text
strip [] s = some s
strip (p ∷ ps) [] = none
strip (p ∷ ps) (c ∷ cs) = let rest = strip ps cs in if p == c then rest else none

digits_of : Option Text → Option Text
unfolding all_digits
digits_of none = none
digits_of (some s) = if all_digits s then some s else none

or_else : Option Text → Option Text → Option Text
or_else (some s) t = some s
or_else none t = t

-- `regexArgNumber`; the digits
unfoldable pub match_number : Text → Option Text
unfolding strip digits_of or_else
match_number s = or_else (digits_of (strip (codes "uint") s)) (digits_of (strip (codes "int") s))

not_empty : Option Text → Option Text
not_empty none = none
not_empty (some s) = if is_empty s then none else some s

-- `regexArgBytes`; the digits
unfoldable pub match_bytes : Text → Option Text
unfolding strip digits_of not_empty
match_bytes s = not_empty (digits_of (strip (codes "bytes") s))

-- the text without its last byte, where that is `]`
drop_close : Text → Option Text
drop_close [] = none
drop_close (c ∷ []) = if c == 93 then some [] else none
drop_close (c ∷ d ∷ ds) = elim (drop_close (d ∷ ds)) [ none ↦ none | some s ↦ some (c ∷ s) ]

cut_at : Option ℕ → Text → Option (Text × Text)
unfolding all_digits
cut_at none s = none
cut_at (some i) s =
    if all_digits (drop (suc i) s) && not (contains 10 (take i s))
    then some (take i s, drop (suc i) s)
    else none

-- `regexArgArray`; the name of the elements' type and the digits. Behind the last `[` there are
-- digits alone, and `.` is no line break.
unfoldable pub match_array : Text → Option (Text × Text)
unfolding drop_close cut_at
match_array s = elim (drop_close s) [ none ↦ none | some t ↦ cut_at (last_index 91 t) t ]

value_of : Text → ℕ → ℕ
value_of [] acc = acc
value_of (c ∷ cs) acc = value_of cs (acc * 10 + (c - 48))

-- strconv.ParseInt of digits, with 64 bits
unfoldable pub parse_int : Text → Option ℕ
unfolding value_of
parse_int s =
    if is_empty s then none else if ltb (value_of s 0) (2 ^ 63) then some (value_of s 0) else none
