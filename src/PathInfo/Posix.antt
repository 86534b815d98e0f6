-- ===== src/PathInfo/Posix.antt =====
-- Texts read the POSIX way: a platform for the tests, and what a local path is named by.
use Prim.Native.Char.{code}
use python_dvc.Base.{
  String, ◌<>◌, ◌==◌, nat_eq, string_eq, none, List, [], ◌∷◌, ◌||◌, if◌then◌else◌, Bool, false,
}
use python_dvc.PathInfo.Defs.{Platform, Info, local_path, remote_path}

cons_head : List String → String → List String
cons_head [] c = c ∷ []
cons_head (s ∷ ss) c = (c <> s) ∷ ss

-- `text.split("/")`
split : String → List String
unfolding cons_head
split String.[] = "" ∷ []
split (String.◌∷◌ c s) =
    let rest = split s in
    if code c == b'/' then "" ∷ rest else cons_head rest (String.◌∷◌ c String.[])

drop_empty : List String → List String
drop_empty [] = []
drop_empty (s ∷ ss) = let rest = drop_empty ss in if s == "" || s == "." then rest else s ∷ rest

starts_at_root : String → Bool
starts_at_root String.[] = false
starts_at_root (String.◌∷◌ c s) = code c == b'/'

unfoldable pub parts : String → List String
unfolding split drop_empty starts_at_root
parts s = if starts_at_root s then "/" ∷ drop_empty (split s) else drop_empty (split s)

join : List String → String
join [] = ""
join (s ∷ []) = s
join (s ∷ t ∷ ss) = s <> "/" <> join (t ∷ ss)

unfoldable pub fspath : List String → String
unfolding join
fspath [] = "."
fspath (s ∷ ss) = if s == "/" then "/" <> join ss else join (s ∷ ss)

abbrev pub posix : Platform
posix = record {
  parts = parts;
  fspath = fspath;
  urlparse = λ s. record {
    scheme = "";
    hostname = none;
    username = none;
    password = none;
    port = none;
    path = s;
    params = "";
    query = "";
    fragment = "";
  };
  geturl = λ r. r.path;
  str_int = λ n. "";
  webdav_to_http = λ s. s;
}

abbrev pub local_url : Info → String
local_url (local_path ps) = fspath ps
local_url (remote_path c u) = ""

abbrev pub known_local : String → Info
known_local s = local_path (parts s)
