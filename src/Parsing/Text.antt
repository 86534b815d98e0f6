-- ===== src/Parsing/Text.antt =====
-- The methods of Python's texts and numbers that dvc/parsing uses: `str.split` at dots, `str.strip`, `int`.
use Prim.Native.Char.{Char, code}
use Prim.Native.String.{[], ◌∷◌}
use python_dvc.Base.{
  ℕ, zero, suc, ◌+◌, ◌-◌, ◌*◌, String, Bool, ◌&&◌, ◌||◌, Option, none, some, List, [], ◌∷◌, leb,
  ◌==◌, nat_eq, if◌then◌else◌,
}

-- `s.split(sep=".")`
abbrev pub cons_head : Char → List String → List String
cons_head c [] = (c ∷ []) ∷ []
cons_head c (p ∷ ps) = (c ∷ p) ∷ ps

unfoldable pub split_dots : String → List String
split_dots [] = [] ∷ []
split_dots (c ∷ s) =
    let rest = split_dots s in if code c == b'.' then [] ∷ rest else cons_head c rest

-- `s.strip()`: blanks, tabs and line ends go at both ends.
abbrev pub is_blank : Char → Bool
is_blank c = code c == b' ' || (leb 9 (code c) && leb (code c) 13)

unfoldable pub lstrip : String → String
lstrip [] = []
lstrip (c ∷ s) = let rest = lstrip s in if is_blank c then rest else c ∷ s

abbrev pub keep_blank : Char → String → String
keep_blank c [] = if is_blank c then [] else c ∷ []
keep_blank c (d ∷ s) = c ∷ (d ∷ s)

unfoldable pub rstrip : String → String
rstrip [] = []
rstrip (c ∷ s) = keep_blank c (rstrip s)

unfoldable pub strip : String → String
unfolding lstrip rstrip
strip s = rstrip (lstrip s)

-- The index that `int` makes of a text: a number of steps from the front or from the end. Only ASCII digits
-- behind at most one sign are read.
pub data Index : Type 0 where
  from_front from_end : ℕ → Index

unfoldable pub read_digits : ℕ → String → Option ℕ
read_digits n [] = some n
read_digits n (c ∷ s) =
    let rest = read_digits (n * 10 + (code c - b'0')) s in
    if leb b'0' (code c) && leb (code c) b'9' then rest else none

abbrev pub read_number : String → Option ℕ
read_number [] = none
read_number (c ∷ s) = read_digits 0 (c ∷ s)

abbrev pub negative : ℕ → Index
negative zero = from_front 0
negative (suc n) = from_end (suc n)

unfoldable pub parse_int : String → Option Index
unfolding read_digits
parse_int [] = none
parse_int (c ∷ s) =
    if code c == b'-'
    then elim (read_number s) [ none ↦ none | some n ↦ some (negative n) ]
    else elim (read_number (if code c == b'+' then s else c ∷ s)) [
      | none ↦ none
      | some n ↦ some (from_front n)
    ]

-- `s.partition(":")`, without the separator, and `s.split(",")` without the empty texts
abbrev pub cons_front : Char → String × String → String × String
cons_front c (s, t) = (c ∷ s, t)

unfoldable pub partition_colon : String → String × String
partition_colon [] = ([], [])
partition_colon (c ∷ s) =
    let rest = partition_colon s in if code c == b':' then ([], s) else cons_front c rest

unfoldable pub split_commas : String → List String
split_commas [] = [] ∷ []
split_commas (c ∷ s) =
    let rest = split_commas s in if code c == b',' then [] ∷ rest else cons_head c rest

abbrev pub keep_full : List String → List String
keep_full [] = []
keep_full ([] ∷ ps) = keep_full ps
keep_full ((c ∷ s) ∷ ps) = (c ∷ s) ∷ keep_full ps
