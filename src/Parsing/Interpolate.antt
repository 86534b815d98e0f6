-- ===== src/Parsing/Interpolate.antt =====
-- dvc/parsing/interpolate.py: the matches of `${...}` and `${{...}}` in a text, and the text with the values
-- in their place.
use Prim.Native.Char.{Char, code}
use Prim.Native.String.{[], ◌∷◌}
use python_dvc.Base.{
  ℕ, zero, suc, String, ◌<>◌, Bool, false, not, ◌&&◌, Option, none, some, List, [], ◌∷◌, ◌==◌,
  nat_eq, is_empty, if◌then◌else◌,
}
use python_dvc.Parsing.Nodes.{Primitive, null, text, number, bool}

-- What `(.*?)}` and `(.*?)}}` find: the shortest text up to the closing brackets, which has no line end,
-- the brackets, and the rest.
pub record Found : Type 0 where
  pub inner : String
  pub close : String
  pub rest : String

abbrev pub cons_inner : Char → Option Found → Option Found
cons_inner c none = none
cons_inner c (some f) = some (record f { inner = c ∷ f.inner })

unfoldable pub until_one : String → Option Found
until_one [] = none
until_one (c ∷ s) =
    let more = cons_inner c (until_one s) in
    if code c == b'}'
    then some (record { inner = []; close = c ∷ []; rest = s })
    else if code c == 10
    then none
    else more

unfoldable pub until_two : String → Option Found
until_two [] = none
until_two (c ∷ []) = none
until_two (c ∷ (d ∷ s)) =
    let more = cons_inner c (until_two (d ∷ s)) in
    if code c == b'}' && code d == b'}'
    then some (record { inner = []; close = c ∷ (d ∷ []); rest = s })
    else if code c == 10
    then none
    else more

-- A match: its text `group(0)` and what stands inside the brackets; and the text behind it.
pub record Match : Type 0 where
  pub whole : String
  pub inner : String

abbrev pub match_of : String → Option Found → Option (Match × String)
match_of opening none = none
match_of opening (some f) =
    some (record { whole = opening <> (f.inner <> f.close); inner = f.inner }, f.rest)

abbrev pub first_of : Option (Match × String) → Option (Match × String) → Option (Match × String)
first_of (some m) o = some m
first_of none o = o

-- A match that starts at the character `dollar`. Double brackets are tried first.
unfoldable pub match_at : Char → String → Option (Match × String)
unfolding until_one until_two
match_at dollar [] = none
match_at dollar (c ∷ []) = none
match_at dollar (c ∷ (d ∷ s)) =
    let single = match_of (dollar ∷ (c ∷ [])) (until_one (d ∷ s)) in
    let double = match_of (dollar ∷ (c ∷ (d ∷ []))) (until_two s) in
    if code c == b'{' then (if code d == b'{' then first_of double single else single) else none

-- A template is cut into characters and matches.
pub data Piece : Type 0 where
  char : Char → Piece
  expr : Match → Piece

abbrev pub Template : Type 0
Template = List Piece

-- `KEYCRE.finditer`: a `$` behind a backslash starts no match. `behind` is the character before the text.
unfoldable pub cut : ℕ → Bool → String → Template
unfolding match_at
cut zero behind s = []
cut (suc fuel) behind [] = []
cut (suc fuel) behind (c ∷ s) = elim (if code c == b'$' && not behind then match_at c s else none) [
  | none ↦ char c ∷ cut fuel (code c == b'\\') s
  | some (m, rest) ↦ expr m ∷ cut fuel false rest
]

unfoldable pub size : String → ℕ
size [] = 0
size (c ∷ s) = suc (size s)

-- Each round takes at least one character.
unfoldable pub template_of : String → Template
unfolding cut size
template_of s = cut (size s) false s

unfoldable pub whole_text : Template → String
whole_text [] = []
whole_text (char c ∷ ps) = c ∷ whole_text ps
whole_text (expr m ∷ ps) = m.whole <> whole_text ps

unfoldable pub get_matches : Template → List Match
get_matches [] = []
get_matches (char c ∷ ps) = get_matches ps
get_matches (expr m ∷ ps) = m ∷ get_matches ps

-- `is_exact_string`: the whole text is one match.
abbrev pub exact_match : Template → Option Match
exact_match (expr m ∷ []) = some m
exact_match _ = none

-- `is_interpolated_string` of a text
unfoldable pub is_interpolated : Template → Bool
unfolding get_matches
is_interpolated t = not (is_empty (get_matches t))

-- `to_str`
unfoldable pub to_str : Primitive → String
to_str null = "None"
to_str (text s) = s
to_str (number s) = s
to_str (bool b) = if b then "true" else "false"

-- `buf.replace(r"\${", "${")`
unfoldable pub unescape : String → String
unescape [] = []
unescape (c ∷ []) = c ∷ []
unescape (c ∷ (d ∷ [])) = c ∷ (d ∷ [])
unescape (c ∷ (d ∷ (e ∷ s))) =
    let rest = unescape (d ∷ (e ∷ s)) in
    let skip = unescape s in
    if code c == b'\\' && (code d == b'$' && code e == b'{') then d ∷ (e ∷ skip) else c ∷ rest
