-- ===== src/Ethcoder/Text.antt =====
-- The functions of the standard library's packages strings and fmt that the coder package calls, on a
-- text as the list of its bytes. A text is ASCII: `trim_space` knows the six spaces of ASCII.
pub mod Ends
pub mod Pieces
pub mod Trimming
pub mod Splitting
use Prim.Native.Char.{code}
use Prim.Native.String.{String}
use ethkit.Prelude.{
  ℕ, zero, suc, ◌+◌, ◌-◌, ◌/◌, ◌%◌, Bool, true, false, ◌&&◌, ◌||◌, Option, none, some, List, [],
  ◌∷◌, ◌++◌, take, drop, length, ltb, leb, ◌==◌, if◌then◌else◌,
}

abbrev pub Text : Type 0
Text = List ℕ

abbrev pub codes : String → Text
codes String.[] = []
codes (String.◌∷◌ c s) = code c ∷ codes s

abbrev pub is_empty : Text → Bool
is_empty [] = true
is_empty (c ∷ cs) = false

-- `==` of two strings
unfoldable pub text_eq : Text → Text → Bool
text_eq [] [] = true
text_eq [] (b ∷ bs) = false
text_eq (a ∷ as') [] = false
text_eq (a ∷ as') (b ∷ bs) = a == b && text_eq as' bs

abbrev pub is_space : ℕ → Bool
is_space c = c == 32 || (leb 9 c && leb c 13)

unfoldable pub trim_left : (ℕ → Bool) → Text → Text
trim_left test [] = []
trim_left test (c ∷ cs) = if test c then trim_left test cs else c ∷ cs

-- a byte and what is left of the bytes behind it
keep_or_trim : Bool → ℕ → Text → Text
keep_or_trim true c [] = []
keep_or_trim false c [] = c ∷ []
keep_or_trim t c (d ∷ ds) = c ∷ d ∷ ds

unfoldable pub trim_right : (ℕ → Bool) → Text → Text
unfolding keep_or_trim
trim_right test [] = []
trim_right test (c ∷ cs) = keep_or_trim (test c) c (trim_right test cs)

-- strings.TrimSpace
unfoldable pub trim_space : Text → Text
unfolding trim_left trim_right
trim_space s = trim_right is_space (trim_left is_space s)

abbrev pub map_suc : Option ℕ → Option ℕ
map_suc none = none
map_suc (some i) = some (suc i)

-- strings.Index of one byte; `none` is -1
unfoldable pub index : ℕ → Text → Option ℕ
index c [] = none
index c (x ∷ xs) = let rest = map_suc (index c xs) in if x == c then some 0 else rest

last_of : Option ℕ → Bool → Option ℕ
last_of (some i) t = some (suc i)
last_of none t = if t then some 0 else none

-- strings.LastIndex of one byte
unfoldable pub last_index : ℕ → Text → Option ℕ
unfolding last_of
last_index c [] = none
last_index c (x ∷ xs) = last_of (last_index c xs) (x == c)

-- strings.Contains of one byte
unfoldable pub contains : ℕ → Text → Bool
contains c [] = false
contains c (x ∷ xs) = x == c || contains c xs

-- strings.Count of one byte
unfoldable pub count : ℕ → Text → ℕ
count c [] = 0
count c (x ∷ xs) = let rest = count c xs in if x == c then suc rest else rest

onto_first : ℕ → List Text → List Text
onto_first c [] = (c ∷ []) ∷ []
onto_first c (p ∷ ps) = (c ∷ p) ∷ ps

-- strings.Split at one byte
unfoldable pub split : ℕ → Text → List Text
unfolding onto_first
split c [] = [] ∷ []
split c (x ∷ xs) = let rest = split c xs in if x == c then [] ∷ rest else onto_first x rest

-- `s[a:b]`; `none` is a panic
unfoldable pub slice : ℕ → ℕ → Text → Option Text
slice a b s = if leb a b && leb b (length s) then some (take (b - a) (drop a s)) else none

digits : ℕ → ℕ → Text → Text
digits zero n acc = acc
digits (suc fuel) n acc =
    let rest = digits fuel (n / 10) ((48 + n % 10) ∷ acc) in
    if ltb n 10 then (48 + n) ∷ acc else rest

-- `%d` of a number that is not negative
unfoldable pub decimal : ℕ → Text
unfolding digits
decimal n = digits (suc n) n []
