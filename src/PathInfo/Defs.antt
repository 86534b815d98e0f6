-- ===== src/PathInfo/Defs.antt =====
-- dvc/path_info.py: the path objects, their comparison and the URL that names them (POSIX).
-- What Python's `pathlib`, `urllib.parse` and `str` do with a text is the parameter `Platform`.
use native.Mathlib.Decide.{ℕ_discrete}
use python_dvc.Base.{
  ℕ, String, Bool, false, ◌&&◌, ◌||◌, Option, List, [], ◌∷◌, Eq, ◌==◌, parts_eq, String-discrete,
  length, take, ltb,
}
use python_dvc.Base.Dict.{Dict}

-- The result of `urlparse`.
pub record ParseResult : Type 0 where
  pub scheme : String
  pub hostname : Option String
  pub username : Option String
  pub password : Option String
  pub port : Option ℕ
  pub path : String
  pub params : String
  pub query : String
  pub fragment : String

pub record Platform : Type 0 where
  -- `PurePosixPath(s).parts` and `str(path)`
  pub parts : String → List String
  pub fspath : List String → String
  pub urlparse : String → ParseResult
  pub geturl : ParseResult → String
  pub str_int : ℕ → String
  -- `scheme.replace("webdav", "http")`
  pub webdav_to_http : String → String

pub data UrlClass : Type 0 where
  url_info cloud_url_info http_url_info webdav_url_info : UrlClass

-- The fields of `URLInfo`; those of `_extra_parts` are empty but in `HTTPURLInfo`.
pub record BaseParts : Type 0 where
  pub scheme : String
  pub host : Option String
  pub user : Option String
  pub port : Option ℕ

pub record ExtraParts : Type 0 where
  pub params : String
  pub query : String
  pub fragment : String

pub record Url : Type 0 where
  pub base : BaseParts
  pub spath : String
  pub extra : ExtraParts

-- `PathInfo` with its parts, or an object of `URLInfo` or of a class below it.
pub data Info : Type 0 where
  local_path : List String → Info
  remote_path : UrlClass → Url → Info

-- `self.__class__`
pub data Class : Type 0 where
  path_class : Class
  url_class : UrlClass → Class

abbrev pub class_of : Info → Class
class_of (local_path ps) = path_class
class_of (remote_path c u) = url_class c

unfoldable pub Class-discrete : Discrete Class
Class-discrete = hlevel

unfoldable pub BaseParts-discrete : Discrete BaseParts
unfolding String-discrete ℕ_discrete
BaseParts-discrete = hlevel (String-discrete, ℕ_discrete)

unfoldable pub ExtraParts-discrete : Discrete ExtraParts
unfolding String-discrete
ExtraParts-discrete = hlevel String-discrete

instance unfoldable pub class_eq : Eq Class
unfolding Class-discrete
class_eq = record { dec = Class-discrete }

instance unfoldable pub base_parts_eq : Eq BaseParts
unfolding BaseParts-discrete
base_parts_eq = record { dec = BaseParts-discrete }

instance unfoldable pub extra_parts_eq : Eq ExtraParts
unfolding ExtraParts-discrete
extra_parts_eq = record { dec = ExtraParts-discrete }

-- `isin` on the parts: `len(self._cparts) > n and self._cparts[:n] == other._cparts`
unfoldable pub parts_isin : List String → List String → Bool
parts_isin self other = let n = length other in ltb n (length self) && take n self == other

module _ (platform : Platform) where
  open platform use {parts, fspath, urlparse, geturl, str_int, webdav_to_http}

  -- `_path`
  abbrev pub path_parts : Url → List String
  path_parts u = parts u.spath

  -- `isin`, for two objects
  unfoldable pub isin : Info → Info → Bool
  unfolding parts_isin
  isin (local_path self) (local_path other) = parts_isin self other
  isin (remote_path c self) (remote_path d other) =
      url_class c == url_class d
      && (self.base == other.base && parts_isin (path_parts self) (path_parts other))
  isin _ _ = false

  -- `__eq__`, for two objects
  unfoldable pub eq : Info → Info → Bool
  eq (local_path self) (local_path other) = self == other
  eq (remote_path http_url_info self) (remote_path http_url_info other) =
      self.base == other.base && (path_parts self == path_parts other && self.extra == other.extra)
  eq (remote_path c self) (remote_path d other) =
      url_class c == url_class d && (self.base == other.base && path_parts self == path_parts other)
  eq _ _ = false

  -- `_BasePath.isin_or_eq` and `_BasePath.overlaps`
  unfoldable pub isin_or_eq : Info → Info → Bool
  unfolding eq isin
  isin_or_eq self other = eq self other || isin self other

  unfoldable pub overlaps : Info → Info → Bool
  unfolding isin_or_eq
  overlaps self other =
      class_of self == class_of other && (isin_or_eq self other || isin other self)

abbrev pub default_ports : Dict String ℕ
default_ports = ("http", 80) ∷ ("https", 443) ∷ ("ssh", 22) ∷ ("hdfs", 0) ∷ []
