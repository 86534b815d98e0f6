-- ===== src/Output/HashInfo.antt =====
-- dvc/hash_info.py: the checksum of a file or directory, and its form in a DVC-file.
use native.Mathlib.Decide.{ℕ_discrete}
use python_dvc.Base.{
  ℕ, String, ◌≡◌, refl, Bool, false, not, ◌&&◌, ◌≢◌, Option, none, some, [], ◌∷◌, Eq, ◌==◌,
  String-discrete, string_eq, nat_eq, arith, if◌then◌else◌, ==_iff, Bool-cases, inl, inr,
}
use python_dvc.Base.Dict.{Dict, get, remove, put, get_or}
use python_dvc.Base.Result.{Result, ok, err}

-- A value of the file, or None.
pub data Field : Type 0 where
  null : Field
  text : String → Field
  number : ℕ → Field

unfoldable pub Field-discrete : Discrete Field
unfolding String-discrete ℕ_discrete
Field-discrete = hlevel (String-discrete, ℕ_discrete)

instance unfoldable pub field_eq : Eq Field
unfolding Field-discrete
field_eq = record { dec = Field-discrete }

-- A key of the dict: a text, or None.
unfoldable pub Key-discrete : Discrete (Option String)
unfolding String-discrete
Key-discrete = hlevel String-discrete

instance unfoldable pub key_eq : Eq (Option String)
unfolding Key-discrete
key_eq = record { dec = Key-discrete }

-- `bool(value)`
unfoldable pub is_true : Field → Bool
is_true null = false
is_true (text s) = not (s == "")
is_true (number n) = not (n == 0)

-- `dir_info`, which no comparison and no file reads, is left out.
pub record HashInfo : Type 0 where
  pub name : Option String
  pub value : Field
  pub size : Field
  pub nfiles : Field

abbrev pub no_hash : HashInfo
no_hash = record { name = none; value = null; size = null; nfiles = null }

-- The `==` that `@dataclass` makes of the fields with `compare`.
abbrev pub eq : HashInfo → HashInfo → Bool
eq a b = (a.name == b.name) && (a.value == b.value)

abbrev pub param_size : Option String
param_size = some "size"

abbrev pub param_nfiles : Option String
param_nfiles = some "nfiles"

pub data HashFailure : Type 0 where
  value_error : HashFailure

-- `((name, value),) = _d.items()`
abbrev pub only_item : Field → Field → Dict (Option String) Field → Result HashFailure HashInfo
only_item size nfiles [] = ok no_hash
only_item size nfiles ((name, value) ∷ []) =
    ok (record { name = name; value = value; size = size; nfiles = nfiles })
only_item size nfiles (_ ∷ (_ ∷ _)) = err value_error

unfoldable pub from_dict : Dict (Option String) Field → Result HashFailure HashInfo
from_dict d =
    let size = get_or d param_size null in
    let d' = remove d param_size in
    only_item size (get_or d' param_nfiles null) (remove d' param_nfiles)

-- `if field is not None: ret[key] = field`
abbrev pub put_given :
    Dict (Option String) Field → Option String → Field → Dict (Option String) Field
put_given d key null = d
put_given d key (text s) = put d key (text s)
put_given d key (number n) = put d key (number n)

unfoldable pub to_dict : HashInfo → Dict (Option String) Field
unfolding is_true
to_dict self =
    if is_true self.value
    then put_given (put_given (put [] self.name self.value) param_size self.size) param_nfiles
        self.nfiles
    else []

differ : (a b : Option String) → a ≢ b → (a == b) ≡ false
differ a b d = ground (arith, ==_iff a b)

-- An entry and the two given fields are read back.
only_entry :
    (name : Option String) (value size nfiles : Field)
    → name ≢ param_size
    → name ≢ param_nfiles
    → from_dict (put_given (put_given ((name, value) ∷ []) param_size size) param_nfiles nfiles)
      ≡ ok (record { name = name; value = value; size = size; nfiles = nfiles })
unfolding from_dict get put remove key_eq
only_entry name value null null d e =
    ground (arith, differ param_size name, differ param_nfiles name)
only_entry name value null (text s) d e =
    ground (arith, differ param_size name, differ param_nfiles name)
only_entry name value null (number n) d e =
    ground (arith, differ param_size name, differ param_nfiles name)
only_entry name value (text s) null d e =
    ground (arith, differ param_size name, differ param_nfiles name)
only_entry name value (text s) (text t) d e =
    ground (arith, differ param_size name, differ param_nfiles name)
only_entry name value (text s) (number n) d e =
    ground (arith, differ param_size name, differ param_nfiles name)
only_entry name value (number n) null d e =
    ground (arith, differ param_size name, differ param_nfiles name)
only_entry name value (number n) (text t) d e =
    ground (arith, differ param_size name, differ param_nfiles name)
only_entry name value (number n) (number m) d e =
    ground (arith, differ param_size name, differ param_nfiles name)

-- A checksum whose name is neither `size` nor `nfiles` is read back from the dict that it is written as,
-- with its size and its number of files; one whose value is empty is read back as the empty checksum.
pub from_dict-to_dict :
    (self : HashInfo)
    → self.name ≢ param_size
    → self.name ≢ param_nfiles
    → from_dict (to_dict self) ≡ ok (if is_true self.value then self else no_hash)
unfolding to_dict put
from_dict-to_dict self not_size not_nfiles = elim (Bool-cases (is_true self.value)) [
  | inl e ↦ rw e (only_entry self.name self.value self.size self.nfiles not_size not_nfiles)
  | inr e ↦ rw e (unfold from_dict get remove in refl)
]
