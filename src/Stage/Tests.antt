-- ===== src/Stage/Tests.antt =====
-- Runs of a stage with one dependency and one output, on files that are their own checksums.
use python_dvc.Base.{
  String, ◌≡◌, refl, subst, Bool, true, false, not, Option, none, some, List, [], ◌∷◌, contains,
  ◌==◌, ==_iff, string_eq, if◌then◌else◌, arith,
}
use python_dvc.Base.Result.{ok}
use python_dvc.Output.HashInfo.{
  Field, null, text, number, Key-discrete, Field-discrete, HashInfo, no_hash, from_dict, to_dict,
  from_dict-to_dict, is_true, key_eq, field_eq,
}
use python_dvc.Output.Defs.{Backend, Output, status, save, commit}
use python_dvc.Output.Clean.{Keeps, IsLawful, HasHashes}
use python_dvc.Output.Save.{save-commit-status}
use python_dvc.Stage.Defs.{plain, one, Stage, Runner, Options, is_callback, reproduce}
use python_dvc.Base.Result.{ok_injective}
use python_dvc.Stage.Changed.{IsRunner}
use python_dvc.Stage.Reproduce.{reproduce_twice}

-- The files, and the checksums in the cache.
record Disk : Type 0 where
  files : String → String
  cached : List Field

abbrev hash_of : Disk → String → HashInfo
hash_of w p = record { name = some "md5"; value = text (w.files p); size = null; nfiles = null }

abbrev write : Disk → String → String → Disk
write w p content = record w { files = λ q. if q == p then content else w.files q }

abbrev disk : Backend Disk
disk = record {
  exists = λ w p. not (w.files p == "");
  isdir = λ w p. false;
  istextfile = λ w p. true;
  tree_get_hash = λ w p. (hash_of w p, w);
  cache_get_hash = λ w p. (hash_of w p, w);
  changed_cache = λ w h. (not (contains w.cached h.value), w);
  cache_save = λ w p h. (ok tt, record w { cached = h.value ∷ w.cached });
  remove = λ w p. write w p "";
  unprotect = λ w p. w;
  is_tracked = λ w p. false;
  ignore = λ w p. w;
}

same_disk : (w : Disk) → Keeps disk w w
same_disk w = record {
  exists = λ p. refl;
  tree_hash = λ p. refl;
  cache_hash = λ p. refl;
  cached = λ h c. c;
}

disk-IsLawful : IsLawful disk
disk-IsLawful = record {
  tree_get_hash = λ w p. same_disk w;
  cache_get_hash = λ w p. same_disk w;
  changed_cache = λ w h. same_disk w;
  cache_save = λ w p h. record {
    exists = λ q. refl;
    tree_hash = λ q. refl;
    cache_hash = λ q. refl;
    cached = λ g c. ground arith;
  };
  ignore = λ w p. same_disk w;
  cached_by_save = λ w p h e saved. ground (arith, ==_iff h.value h.value);
}

disk-HasHashes : HasHashes disk
unfolding is_true
disk-HasHashes w p e = e

-- The command writes "result" to the file `out`.
abbrev runner : Runner Disk
runner = record {
  md5_of = λ s. "c157a79031e1";
  sync_import = λ s dry force w. ok (s.deps, w);
  run_stage = λ s dry force w. ok (s.deps, write w "out" "result");
  stage_cache_save = λ s w. ok w;
  confirm = λ s. true;
}

runner-IsRunner : IsRunner disk runner
runner-IsRunner = record {
  md5_of = λ s m. refl;
  stage_cache_save = λ s w {w'} e. subst (Keeps disk w) (ok_injective e) (same_disk w);
}

abbrev local : String → HashInfo → Bool → Output
local p h cached = record {
  path = p;
  hash_info = h;
  is_dependency = not cached;
  use_cache = cached;
  metric = false;
  plot = false;
  persist = false;
  checkpoint = false;
  use_scm_ignore = cached;
}

abbrev stage_of : HashInfo → HashInfo → Option String → Stage
stage_of dep_hash out_hash md5 = record {
  kind = plain;
  cmd = some (one "train");
  deps = local "in" dep_hash false ∷ [];
  outs = local "out" out_hash true ∷ [];
  md5 = md5;
  frozen = false;
  always_changed = false;
}

abbrev fresh : Stage
fresh = stage_of no_hash no_hash none

abbrev begin : Disk
begin = record { files = λ q. if q == "in" then "data" else ""; cached = [] }

abbrev options : Options
options = record {
  dry = false;
  no_commit = false;
  force = false;
  allow_missing = false;
  checkpoint = false;
  interactive = true;
}

abbrev ended : Disk
ended = record (write (write begin "out" "") "out" "result") { cached = text "result" ∷ [] }

abbrev done : Stage
done = stage_of (hash_of ended "in") (hash_of ended "out") (some "c157a79031e1")

program : Unit {0}
unfolding reproduce is_true Key-discrete Field-discrete key_eq field_eq string_eq is_callback save
    commit status
program = tt

first_run : reproduce disk runner options fresh begin ≡ ok (some done, ended)
unfolding program
first_run = refl

reproduce_twice_example :
    (last : Disk) × (reproduce disk runner options done ended ≡ ok (none, last))
unfolding program
reproduce_twice_example =
    reproduce_twice disk runner disk-IsLawful runner-IsRunner disk-HasHashes options options fresh
      begin {s = done} {w' = ended} refl refl refl refl refl refl refl refl (refl, tt) refl

abbrev checksum : HashInfo
checksum = record {
  name = some "md5";
  value = text "acbd18db4cc2f85cedef654fccc4a4d8";
  size = number 3;
  nfiles = null;
}

from_dict-to_dict_example :
    from_dict (to_dict checksum) ≡ ok (if is_true checksum.value then checksum else no_hash)
from_dict-to_dict_example = from_dict-to_dict checksum (λ e. cc) (λ e. cc)

abbrev out : Output
out = local "out" no_hash true

abbrev saved_out : Output
saved_out = local "out" (hash_of ended "out") true

save-commit-status_example : (status disk saved_out (commit disk saved_out ended).1).0 ≡ none
save-commit-status_example =
    save-commit-status disk disk-IsLawful out ended {self' = saved_out} {w' = ended}
      (unfold program in refl) (unfold program in refl)
