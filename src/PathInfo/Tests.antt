-- ===== src/PathInfo/Tests.antt =====
-- Runs of the paths of dvc/path_info.py.
use python_dvc.Base.{◌≡◌, refl, ◌↔◌, true, [], ◌∷◌, parts_eq, string_eq, nat_eq}
use python_dvc.PathInfo.Defs.{Url, url_info, local_path, isin, overlaps, Info}
use python_dvc.PathInfo.Overlap.{Below, Comparable, root, parts_of, isin_iff, overlaps_iff}
use python_dvc.Base.{some, none}
use python_dvc.Base.Dict.{get}
use python_dvc.Base.Result.{ok}
use python_dvc.PathInfo.Url.{fill_parts, replace, replace_self}
use python_dvc.PathInfo.Posix.{posix, parts, fspath}

abbrev repo : Info
repo = local_path ("/" ∷ "repo" ∷ [])

abbrev data_dir : Info
data_dir = local_path ("/" ∷ "repo" ∷ "data" ∷ [])

abbrev raw : Info
raw = local_path ("/" ∷ "repo" ∷ "data" ∷ "raw" ∷ [])

parts_run : parts "/repo//data/./raw" ≡ "/" ∷ "repo" ∷ "data" ∷ "raw" ∷ []
unfolding parts string_eq nat_eq
parts_run = refl

fspath_run : fspath ("/" ∷ "repo" ∷ "data" ∷ []) ≡ "/repo/data"
unfolding fspath string_eq
fspath_run = refl

isin_run : isin posix raw data_dir ≡ true
unfolding isin parts_eq
isin_run = refl

isin_run_repo : isin posix data_dir repo ≡ true
unfolding isin parts_eq
isin_run_repo = refl

isin_iff_example : (isin posix raw data_dir ≡ true) ↔ (
    (root posix raw ≡ root posix data_dir) × Below (parts_of posix raw) (parts_of posix data_dir))
isin_iff_example = isin_iff posix raw data_dir

overlaps_iff_example : (overlaps posix raw repo ≡ true) ↔ Comparable posix raw repo
overlaps_iff_example = overlaps_iff posix raw repo refl

abbrev server : Url
server = record {
  base = record { scheme = "ssh"; host = some "host"; user = none; port = some 22 };
  spath = "/data";
  extra = record { params = ""; query = ""; fragment = "" };
}

server_filled : fill_parts "ssh" (some "host") none none "data" ≡ ok server
unfolding fill_parts string_eq nat_eq get
server_filled = refl

replace_self_example : replace url_info server "/data" ≡ ok server
unfolding string_eq
replace_self_example = replace_self "ssh" (some "host") none none "data" refl server_filled
