-- ===== src/Lib.antt =====
-- A model of the core of DVC, the data version control program, with theorems about it. DVC keeps data
-- files out of Git: a stage names its dependencies, its command and its outputs; the checksums of the
-- outputs stand in DVC-files, the data in a cache that is pushed to and pulled from a remote.
--
-- The parts, and the files that model them:
-- - dvc/path_info.py: PathInfo/Defs (path objects, `isin`, `overlaps`), PathInfo/Url (how a URLInfo is made,
--   changed and printed), with PathInfo/Overlap and PathInfo/Posix for proofs. A path object is `Info`: a
--   local path is its list of parts, a remote one is the class of the URLInfo with its fields. What pathlib
--   and urllib.parse do is the parameter `Platform`.
-- - dvc/rwlock.py: RwLock/Defs (the lock file, the checks, `enter` and `leave` for the two halves of the
--   context manager `rwlock`). RwLock/Safety states which interleavings of processes are looked at: each half
--   is one step, as the lock of the repository makes it, and a process may die between the two. The lock
--   compares paths by `overlaps` of dvc/path_info.py, and reads the listed texts back by the URLInfo classes.
-- - dvc/cache/__init__.py: Cache/Named (the tree of checksums and names that a transfer is given), with
--   Cache/Keys for proofs.
-- - dvc/cache/base.py: Cache/Listing (which checksums a cache holds, and `gc`), with Cache/Listing/Hex,
--   Cache/Listing/Stored, Cache/Listing/Estimate, Cache/Listing/Exact and Cache/Listing/Gc for proofs. The file
--   tree is the interface `Tree`, and `IsStore` what is expected of it. Python's floats are the interface `Floats`;
--   nothing is said of their rounding, which `IsSteady` speaks of. Remote/Status asks these questions.
--   Cache/Checkout and Cache/Checkout/Run: whether files have changed, the links, and `checkout`, on the
--   `World` of a local cache and a workspace; what is outside is the `Machine`. The state database, which only
--   remembers checksums, ignored files and the link type symlink are left out: of the other types a file of
--   the workspace keeps its content when the cache loses its own. The other files of Cache/Checkout are proofs: `Step`
--   is what every act keeps, Acts, Links and Frame show it of each, Delivery, Entries and Removal are for what a
--   checkout leaves (Exact and Returns for a file, Directory for a directory).
-- - dvc/remote/index.py: Remote/Index (the table of checksums known to be on a remote, its database file).
--   A table is a dictionary from a checksum to the mark of a directory.
-- - dvc/remote/base.py: Remote/Status (what exists on the remote, and the status of each file) and
--   Remote/Transfer (the plans, the uploads and downloads as futures, what `_process` returns or raises, and
--   the index that it leaves), with Remote/Exact, Remote/PushLaws and Remote/Outcome for proofs. They read
--   the tree of Cache/Named and write the table of Remote/Index.
-- - dvc/hash_info.py: Output/HashInfo.
-- - dvc/output/base.py and dvc/output/local.py: Output/Defs (status, save and commit of an output or of a
--   local dependency). The file tree, the cache and Git are the interface `Backend`; Output/Clean states
--   what they promise (`IsLawful`).
-- - dvc/stage/__init__.py: Stage/Defs (when a stage counts as changed, `save`, `commit`, `run`, `reproduce`).
--   The command, the import of a file, the run cache, the prompt and the checksum of the dump are the
--   interface `Runner`. Stage/Create has `create_stage` and the checks of dvc/stage/utils.py, with
--   Stage/Duplicates and Stage/Created for proofs.
-- - dvc/repo/reproduce.py: Repo/Reproduce (the order of the stages of a pipeline, and the loop that
--   reproduces them), with Repo/Order and Repo/Force for proofs. The searches of networkx and the method
--   `reproduce` of a stage are parameters.
-- - dvc/repo/trie.py and dvc/repo/graph.py: Repo/Graph (the trie of the outputs and the graph of the stages),
--   with Repo/Graph/Overlap and Repo/Graph/Edges for proofs. The trie of pygtrie is the interface `Trie`, and
--   `IsTrie` what its documentation says of it; `find_cycle` of networkx is a parameter.
-- - dvc/parsing/context.py, dvc/parsing/interpolate.py and dvc/parsing/__init__.py: Parsing/Nodes (values that
--   know the file and key they come from), Parsing/Merge, Parsing/Text and Parsing/Interpolate (the texts and
--   the expressions in them), Parsing/Context (selection, tracking, resolution, `set`), Parsing/Resolver (the
--   loading of `vars`). Parsing/Pieces, Parsing/Laws and Parsing/Tracking hold proofs. The parser of an
--   expression, which pyparsing makes, and the files are parameters. Nodes are values: where two keys share one
--   node, as they may after `set`, the source also adds below the one what is merged into the other.
-- - dvc/stage/serialize.py, dvc/stage/loader.py and dvc/dependency/param.py: Lock/Defs (what a stage is written
--   as in dvc.lock, and how a stage is filled from there) and Lock/File (`Lockfile` of dvc/dvcfile.py, for a
--   file that fits the schema), with Lock/Sorted, Lock/Lookup, Lock/Params and
--   Lock/RoundTrip for proofs. The checksums are those of Output/HashInfo.
-- - dvc/stage/cache.py, with `dict_filter` of dvc/utils/__init__.py: RunCache/Defs (the keys) and RunCache/Store
--   (`load`, `save` and `transfer` of the files under `runs`), with RunCache/Own, RunCache/Reached and
--   RunCache/Keys for proofs. The lock data are those of Lock/Defs. The checksum of a JSON text and the commit
--   of outputs are parameters.
-- Base holds what the parts share: Python's dictionaries (Base/Dict), exceptions (Base/Result), equality and
-- lists. Each Tests file runs its part on small inputs.
--
-- Exceptions are values of `Result`. A function that writes takes the state and returns the next one. Sets
-- are lists that are read by membership. Three loops are on fuel: `load_retrying` of Remote/Index has the two
-- tries that the source has, for a second try finds no file and so makes a new one; `chunks` of
-- Remote/Index has the length of the list, for each round takes at least one checksum;
-- `cut` of Parsing/Interpolate has the size of the text, for each round takes at least one character.
--
-- Not modelled: the command line and its printing, the configuration, Git, the file trees of the clouds, the
-- saving of files in the cache (dvc/cache/base.py), the stages that a dvc.yaml is resolved to, the files
-- that are written for the pipeline (dvc/dvcfile.py but for `Lockfile`), and the threads, which are only seen
-- through the futures that they end with.
pub mod Base
pub mod PathInfo
pub mod RwLock
pub mod Cache
pub mod Remote
pub mod Lock
pub mod RunCache
pub mod Output
pub mod Stage
pub mod Repo
pub mod Parsing
