-- ===== src/Tests/PathRuns.antt =====
-- `normalize_sub_path` on concrete paths.
use code_executor_api.Prelude.{codes, ◌≡◌, refl, All, [], split, ok, err, contains}
use code_executor_api.Path.{slash, normalize_sub_path, above_root}
use code_executor_api.Path.Resolve.{IsName, resolve}
use code_executor_api.Path.Normal.{
  path_of_walk, normalize_sub_path-eq-walk, split-normalize_sub_path, normalize_sub_path_idem,
}

nested : normalize_sub_path (codes "//a/./b//../c/") ≡ ok (codes "a/c")
unfolding normalize_sub_path
nested = refl

refusals :
    (normalize_sub_path (codes "a/../../a") ≡ err above_root)
    × (normalize_sub_path (codes "a/..") ≡ err above_root)
    × (normalize_sub_path (codes "") ≡ err above_root)
    × (normalize_sub_path (codes "..a") ≡ ok (codes "..a"))
unfolding normalize_sub_path
refusals = (refl, refl, refl, refl)

split-normalize_sub_path_example : All IsName (split slash (codes "a/c"))
split-normalize_sub_path_example =
    split-normalize_sub_path (codes "//a/./b//../c/") (codes "a/c") nested

normalize_sub_path_idem_example : normalize_sub_path (codes "a/c") ≡ ok (codes "a/c")
normalize_sub_path_idem_example =
    normalize_sub_path_idem (codes "//a/./b//../c/") (codes "a/c") nested

normalize_sub_path-eq-walk_example :
    normalize_sub_path (codes "a/../../a")
    ≡ path_of_walk (resolve [] (split slash (codes "a/../../a")))
unfolding contains
normalize_sub_path-eq-walk_example = normalize_sub_path-eq-walk (codes "a/../../a")
