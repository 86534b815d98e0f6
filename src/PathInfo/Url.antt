-- ===== src/PathInfo/Url.antt =====
-- dvc/path_info.py: how path objects are made from texts and parts, and how URLs are rendered.
use Prim.Native.Char.{code}
use text.Mathlib.Text.{starts_with}
use text.Mathlib.TextPositions.{starts_with-append}
use python_dvc.Base.{
  Bool-cases, inl, inr, ℕ, String, ◌<>◌, ◌≡◌, Bool, true, false, not, ◌&&◌, ◌||◌, Option, none,
  some, ◌==◌, string_eq, nat_eq, if◌then◌else◌, arith,
}
use python_dvc.Base.Dict.{get}
use python_dvc.Base.Result.{Result, ok, err, ◌>>=◌, ◌>>◌, guard}
use python_dvc.PathInfo.Defs.{
  Platform, Info, local_path, remote_path, Class, path_class, url_class, UrlClass, url_info,
  http_url_info, webdav_url_info, BaseParts, ExtraParts, Url, default_ports,
}

pub data PathFailure : Type 0 where
  assertion type_error : PathFailure

abbrev pub no_extra : ExtraParts
no_extra = record { params = ""; query = ""; fragment = "" }

-- `bool(text)`, also of a text that may be `None`
abbrev pub given : Option String → Bool
given none = false
given (some s) = not (s == "")

-- `int(port) if port else self.DEFAULT_PORTS.get(self.scheme)`
unfoldable pub port_of : String → Option ℕ → Option ℕ
port_of scheme none = get default_ports scheme
port_of scheme (some n) = if n == 0 then get default_ports scheme else some n

-- `if path and path[0] != "/": path = "/" + path`
normal_path : String → String
normal_path path = if path == "" || starts_with path "/" then path else "/" <> path

-- `_fill_parts`, for a path that is a text
unfoldable pub fill_parts :
    String → Option String → Option String → Option ℕ → String → Result PathFailure Url
unfolding port_of normal_path
fill_parts scheme host user port path = do
  guard (not (scheme == "remote")) assertion
  ok (record {
    base = record { scheme = scheme; host = host; user = user; port = port_of scheme port };
    spath = normal_path path;
    extra = no_extra;
  })

-- `HTTPURLInfo.from_parts` sets the three extra parts; those of its base class stay empty.
abbrev with_extra : UrlClass → ExtraParts → Url → Url
with_extra http_url_info extra u = record u { extra = extra }
with_extra _ extra u = u

abbrev is_default : ℕ → Option ℕ → Bool
is_default port none = false
is_default port (some d) = port == d

-- `from_parts` with a host, and `replace`
unfoldable pub from_parts : UrlClass → BaseParts → ExtraParts → String → Result PathFailure Url
unfolding fill_parts
from_parts c base extra path = do
  guard (given base.host) assertion
  u ← fill_parts base.scheme base.host base.user base.port path
  ok (with_extra c extra u)

unfoldable pub replace : UrlClass → Url → String → Result PathFailure Url
unfolding from_parts
replace c u path = from_parts c u.base u.extra path

is_none : Option String → Bool
is_none none = true
is_none (some s) = false

-- Whether `posixpath.join` puts a separator: not behind an empty path or a last "/".
ends_in_slash : String → Bool
ends_in_slash String.[] = true
ends_in_slash (String.◌∷◌ c String.[]) = code c == b'/'
ends_in_slash (String.◌∷◌ c s) = ends_in_slash s

-- `posixpath.join(a, b)`
unfoldable pub posix_join : String → String → String
unfolding ends_in_slash
posix_join a b = if starts_with b "/" then b else if ends_in_slash a then a <> b else a <> "/" <> b

-- `self / other`
unfoldable pub truediv : UrlClass → Url → String → Result PathFailure Url
unfolding replace posix_join
truediv c u other = replace c u (posix_join u.spath other)

-- `f"{text}"` of a text that may be `None`
abbrev formatted : Option String → String
formatted none = "None"
formatted (some s) = s

-- `a + b`, which raises where `b` is `None`
abbrev concat : String → Option String → Result PathFailure (Option String)
concat a none = err type_error
concat a (some b) = ok (some (a <> b))

abbrev append_to : Option String → String → Result PathFailure (Option String)
append_to none b = err type_error
append_to (some a) b = ok (some (a <> b))

-- `if user: netloc = user + "@" + netloc`
with_user : Option String → Option String → Result PathFailure (Option String)
with_user none host = ok host
with_user (some user) host = if user == "" then ok host else concat (user <> "@") host

module _ (platform : Platform) where
  open platform use {parts, fspath, urlparse, geturl, str_int, webdav_to_http}

  -- `if self.port and int(self.port) != self.DEFAULT_PORTS.get(self.scheme): netloc += ...`
  with_port : String → Option ℕ → Option String → Result PathFailure (Option String)
  with_port scheme none netloc = ok netloc
  with_port scheme (some port) netloc =
      if port == 0 || is_default port (get default_ports scheme)
      then ok netloc
      else append_to netloc (":" <> str_int port)

  unfoldable pub netloc : BaseParts → Result PathFailure (Option String)
  unfolding with_user with_port
  netloc base = do n ← with_user base.user base.host; with_port base.scheme base.port n

  -- `(sep + text) if text else ""`
  abbrev prefixed : String → String → String
  prefixed sep text = if text == "" then "" else sep <> text

  url_scheme : UrlClass → String → String
  url_scheme webdav_url_info scheme = webdav_to_http scheme
  url_scheme _ scheme = scheme

  -- The extra parts are empty but in `HTTPURLInfo`.
  unfoldable pub url_text : UrlClass → Url → Result PathFailure String
  unfolding netloc url_scheme
  url_text c u = do
    n ← netloc u.base
    ok (
        url_scheme c u.base.scheme
        <> "://"
        <> formatted n
        <> u.spath
        <> prefixed ";" u.extra.params
        <> prefixed "?" u.extra.query
        <> prefixed "#" u.extra.fragment)

  -- The texts that the constructors parse: `URLInfo.__init__`.
  unfoldable pub init_url : String → Result PathFailure Url
  unfolding fill_parts is_none
  init_url text = do
    let p = urlparse text
    guard (p.query == "" && (p.params == "" && p.fragment == "")) assertion
    guard (is_none p.password) assertion
    fill_parts p.scheme p.hostname p.username p.port p.path

  -- `HTTPURLInfo.__init__`
  unfoldable pub init_http_url : String → Result PathFailure Url
  unfolding init_url
  init_http_url text = do
    let p = urlparse text
    u ← init_url (geturl (record p { params = ""; query = ""; fragment = "" }))
    ok (record u { extra = record { params = p.params; query = p.query; fragment = p.fragment } })

  -- `self.__class__(text)`
  unfoldable pub from_text : Class → String → Result PathFailure Info
  unfolding init_url init_http_url
  from_text path_class text = ok (local_path (parts text))
  from_text (url_class http_url_info) text = do
    u ← init_http_url text
    ok (remote_path http_url_info u)
  from_text (url_class c) text = do u ← init_url text; ok (remote_path c u)

  -- An address with a query, parameters or a fragment is no text of a `URLInfo`.
  pub init_url_asserts :
      (text : String) (u : Url)
      → init_url text ≡ ok u
      → ((urlparse text).query ≡ "")
        × ((urlparse text).params ≡ "")
        × ((urlparse text).fragment ≡ "")
        × ((urlparse text).password ≡ none)
  unfolding init_url
  init_url_asserts text u h = ground arith

port_of_idem :
    (scheme : String) (port : Option ℕ) → port_of scheme (port_of scheme port) ≡ port_of scheme port
unfolding port_of
port_of_idem scheme port = ground arith

normal_path_idem : (path : String) → normal_path (normal_path path) ≡ normal_path path
unfolding normal_path
normal_path_idem path = elim (Bool-cases (path == "" || starts_with path "/")) [
  | inl e ↦ rw (e, e)
  | inr e ↦ rw (e, starts_with-append "/" path) (ground arith)
]

-- A URLInfo that `_fill_parts` made from a host is given back by `replace` with its own path: neither the
-- default port nor the leading slash is added a second time.
pub replace_self :
    (scheme : String) (host user : Option String) (port : Option ℕ) (path : String) {u : Url}
    → given host ≡ true
    → fill_parts scheme host user port path ≡ ok u
    → replace url_info u u.spath ≡ ok u
unfolding replace
replace_self scheme host user port path g h =
    ground (arith, port_of_idem scheme port, normal_path_idem path)
