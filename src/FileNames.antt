-- ===== src/FileNames.antt =====
-- bin/cpplint.py, `FileInfo` and the functions on names of files. The functions of `os.path` are
-- those of posixpath (Path). What the file system holds is a parameter.
pub mod Path
pub mod Root
use power_judge.Prelude.{
  ℕ, zero, suc, ◌+◌, ◌-◌, Bool, true, false, ◌&&◌, ◌||◌, not, Option, none, some, List, [], ◌∷◌,
  ◌++◌, String, ltb, ◌==◌, if◌then◌else◌, length, take, drop, is_nil,
}
use power_judge.Prelude.Maybe.{◌>>=◌}
use power_judge.Text.{Text, codes, text_eq, text_in, ends_with, replace, join, upper}
use power_judge.Regex.Syntax.{Regex}
use power_judge.Regex.Parse.{re, compile}
use power_judge.Regex.Scan.{sub, group_text}
use power_judge.FileNames.Path.{split_path, splitext, dirname, join_path, abspath, common_prefix}

-- The working directory, and `os.path.exists`.
pub record FileSystem : Type 0 where
  pub cwd : Text
  pub exists : Text → Bool

-- `FileInfo.FullName`
unfoldable pub full_name : FileSystem → Text → Text
unfolding abspath replace
full_name fs filename = replace (abspath fs.cwd filename) (codes "\\") (codes "/")

-- os.path.exists(os.path.join(dir, name))
holds : FileSystem → Text → String → Bool
unfolding join_path
holds fs dir name = fs.exists (join_path dir (codes name))

-- The first `while`: up to the top of the SVN checkout. `none` if the rounds run out.
unfoldable pub svn_root : FileSystem → ℕ → Text → Text → Option Text
unfolding holds dirname
svn_root fs zero root_dir one_up_dir = none
svn_root fs (suc rounds) root_dir one_up_dir =
    let further = svn_root fs rounds (dirname root_dir) (dirname one_up_dir) in
    if holds fs one_up_dir ".svn" then further else some root_dir

unfoldable pub has_repository : FileSystem → Text → Bool
unfolding holds
has_repository fs dir = holds fs dir ".git" || holds fs dir ".hg" || holds fs dir ".svn"

-- The second `while`: up to the nearest directory with a repository, or to the top.
unfoldable pub repository_root : FileSystem → ℕ → Text → Option Text
unfolding has_repository text_eq dirname
repository_root fs zero root_dir = none
repository_root fs (suc rounds) root_dir =
    let further = repository_root fs rounds (dirname root_dir) in
    if not (text_eq root_dir (dirname root_dir)) && not (has_repository fs root_dir)
    then further
    else some root_dir

-- fullname[len(os.path.commonprefix([root_dir, project_dir])) + 1:]
below_root : Text → Text → Text → Text
unfolding common_prefix
below_root fullname root_dir project_dir =
    drop (length (common_prefix root_dir project_dir) + 1) fullname

-- `FileInfo.RepositoryName`
unfoldable pub repository_name : FileSystem → Text → Option Text
unfolding full_name svn_root repository_root has_repository holds below_root dirname
repository_name fs filename =
    let fullname = full_name fs filename in
    let project_dir = dirname fullname in
    let rounds = suc (length fullname) in
    let svn = svn_root fs rounds project_dir (dirname project_dir) in
    let other = repository_root fs rounds project_dir in
    if not (fs.exists fullname)
    then some fullname
    else if holds fs project_dir ".svn"
    then (do root_dir ← svn; some (below_root fullname root_dir project_dir))
    else (do
      root_dir ← other
      some (
          if has_repository fs root_dir
          then below_root fullname root_dir project_dir
          else fullname))

-- `FileInfo.Split`: the directory, the base name and the extension
unfoldable pub split_name : FileSystem → Text → Option (Text × Text × Text)
unfolding repository_name split_path splitext
split_name fs filename = do
  googlename ← repository_name fs filename
  let (project, rest) = split_path googlename
  let (base, extension) = splitext rest
  some (project, base, extension)

-- `BaseName`, `Extension`, `NoExtension` and `IsSource`
unfoldable pub base_name : FileSystem → Text → Option Text
unfolding split_name
base_name fs filename = do parts ← split_name fs filename; some parts.1

unfoldable pub extension : FileSystem → Text → Option Text
unfolding split_name
extension fs filename = do parts ← split_name fs filename; some parts.2

unfoldable pub no_extension : FileSystem → Text → Option Text
unfolding split_name join
no_extension fs filename = do
  parts ← split_name fs filename
  some (join (codes "/") (parts.0 ∷ parts.1 ∷ []))

unfoldable pub is_source : FileSystem → Text → Option Bool
unfolding extension text_in
is_source fs filename = do
  ext ← extension fs filename
  some (text_in (drop 1 ext) (codes "c" ∷ codes "cc" ∷ codes "cpp" ∷ codes "cxx" ∷ []))

-- The path below `_root`, which is given as a pattern.
without_root : Option Text → Text → Text
unfolding sub compile
without_root none path = path
without_root (some []) path = path
without_root (some (c ∷ r)) path =
    sub (compile (codes "^" ++ ((c ∷ r) ++ codes "/"))) (λ _. []) path

-- `GetHeaderGuardCPPVariable`; `root` is the global `_root`
unfoldable pub get_header_guard_cpp_variable : FileSystem → Option Text → Text → Option Text
unfolding repository_name sub re upper group_text without_root
get_header_guard_cpp_variable fs root filename = do
  let filename' = sub (re "_flymake\\.h$") (λ _. codes ".h") filename
  let filename'' = sub (re "/\\.flymake/([^/]*)$") (λ m. codes "/" ++ group_text 1 m) filename'
  path ← repository_name fs filename''
  let from_root = without_root root path
  some (upper (sub (re "[-./\\s]") (λ _. codes "_") from_root) ++ codes "_")

drop_suffix : List Text → Text → Option Text
unfolding ends_with text_in
drop_suffix [] filename = none
drop_suffix (s ∷ ss) filename =
    let rest = drop_suffix ss filename in
    let stem = length filename - length s - 1 in
    if ends_with filename s
      && ltb (length s) (length filename)
      && text_in (take 1 (drop stem filename)) (codes "-" ∷ codes "_" ∷ [])
    then some (take stem filename)
    else rest

-- `_DropCommonSuffixes`
unfoldable pub drop_common_suffixes : Text → Text
unfolding drop_suffix splitext
drop_common_suffixes filename =
    elim (drop_suffix
      (codes "test.cc"
        ∷ codes "regtest.cc"
        ∷ codes "unittest.cc"
        ∷ codes "inl.h"
        ∷ codes "impl.h"
        ∷ codes "internal.h"
        ∷ [])
      filename) [ none ↦ (splitext filename).0 | some stem ↦ stem ]

-- `_IsTestFilename`
unfoldable pub is_test_filename : Text → Bool
unfolding ends_with
is_test_filename filename =
    ends_with filename (codes "_test.cc")
    || ends_with filename (codes "_unittest.cc")
    || ends_with filename (codes "_regtest.cc")
