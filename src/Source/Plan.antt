-- ===== src/Source/Plan.antt =====
-- internal/source/helmloader.go: whether the subcharts of an expanded chart have to be fetched.
pub mod Fetching
use dual_deployment_operator.Base.{
  String, Bool, true, false, Option, none, some, List, [], ◌∷◌, ◌==◌, ◌&&◌, ◌||◌, not,
  if◌then◌else◌, Error, Result, ok, err, plain, concat, M, any, is_none, has_prefix,
}
use dual_deployment_operator.Library.{Library}

-- The calls of package `os` and `filepath.Glob`. A read leaves the world as it is: `read_dir` gives
-- the names and whether they are directories, and `stat` whether a path is one.
pub record FileSystem (S : Type 0) : Type 0 where
  pub mkdir_temp : String → String → M S (Result String)
  pub mkdir_all : String → M S (Option Error)
  pub remove_all : String → M S (Unit {0})
  pub read_dir : String → S → Result (List (String × Bool))
  pub stat : String → S → Result Bool
  pub glob : String → S → Result (List String)
  pub is_not_exist : Error → Bool
  pub join_path : List String → String

pub record Dependency : Type 0 where
  pub name : String
  pub repository : String

pub record Chartfile : Type 0 where
  pub name : String
  pub dependencies : List Dependency

-- `chartutil.LoadChartfile` and `registry.IsOCI`.
pub record ChartFiles (S : Type 0) : Type 0 where
  pub load_chartfile : String → S → Result Chartfile
  pub is_oci : String → Bool

abbrev pub is_true : Result Bool → Bool
is_true (ok b) = b
is_true (err e) = false

abbrev pub matches_any : Result (List String) → Bool
matches_any (ok []) = false
matches_any (ok (m ∷ ms)) = true
matches_any (err e) = false

abbrev pub unless_error : Option Error → Result Bool → Result Bool
unless_error (some e) r = err e
unless_error none r = r

module _ {S : Type 0} (files : FileSystem S) where
  unfoldable pub unpacked_subchart_exists : String → String → S → Bool
  unpacked_subchart_exists chart_dir name s =
      is_true (files.stat (files.join_path (chart_dir ∷ "charts" ∷ name ∷ [])) s)

  unfoldable pub vendored_subchart_exists : String → String → S → Bool
  unfolding unpacked_subchart_exists
  vendored_subchart_exists chart_dir name s =
      unpacked_subchart_exists chart_dir name s
      || matches_any (
          files.glob (files.join_path (chart_dir ∷ "charts" ∷ concat (name ∷ "-*.tgz" ∷ []) ∷ []))
            s)

  module _ (charts : ChartFiles S) ⦃k : Library⦄ where
    -- The first loop: whether a dependency is not vendored.
    unfoldable pub needs_fetch : String → List Dependency → S → Bool
    unfolding vendored_subchart_exists
    needs_fetch chart_dir [] s = false
    needs_fetch chart_dir (d ∷ ds) s =
        not (vendored_subchart_exists chart_dir d.name s) || needs_fetch chart_dir ds s

    -- One pass of the second loop: why `Build` cannot resolve a dependency.
    unfoldable pub dependency_error : String → String → Dependency → S → Option Error
    unfolding unpacked_subchart_exists
    dependency_error chart_name chart_dir d s =
        if d.repository == ""
        then (if unpacked_subchart_exists chart_dir d.name s
            then none
            else some (
                plain (
                  concat (
                    "source: chart "
                    ∷ k.quote chart_name
                    ∷ " dependency "
                    ∷ k.quote d.name
                    ∷ " declares no repository but is not vendored as an unpacked charts/"
                    ∷ d.name
                    ∷ " directory; Build cannot resolve it"
                    ∷ " — provide an oci:// repository or vendor it unpacked"
                    ∷ []))))
        else if has_prefix d.repository "file://" || charts.is_oci d.repository
        then none
        else some (
            plain (
              concat (
                "source: chart "
                ∷ k.quote chart_name
                ∷ " dependency "
                ∷ k.quote d.name
                ∷ " uses unsupported repository "
                ∷ k.quote d.repository
                ∷ "; when any dependency must be fetched, every dependency repository must be oci://"
                ∷ " (or file://) because Build re-resolves the whole Chart.lock"
                ∷ " — vendor all subcharts, or republish this one via OCI"
                ∷ [])))

    unfoldable pub first_dependency_error : String → String → List Dependency → S → Option Error
    unfolding dependency_error
    first_dependency_error chart_name chart_dir [] s = none
    first_dependency_error chart_name chart_dir (d ∷ ds) s =
        let rest = first_dependency_error chart_name chart_dir ds s in
        elim (dependency_error chart_name chart_dir d s) [ some e ↦ some e | none ↦ rest ]

    unfoldable pub lock_exists : String → Result Bool → Result Bool
    lock_exists chart_name (ok is_dir) = ok true
    lock_exists chart_name (err e) =
        if files.is_not_exist e
        then err (
            plain (
              concat (
                "source: chart "
                ∷ k.quote chart_name
                ∷ " declares unvendored dependencies but has no Chart.lock;"
                ∷ " commit Chart.lock for deterministic resolution"
                ∷ [])))
        else err (record e { message = concat ("source: stat Chart.lock: " ∷ e.message ∷ []) })

    -- The plan for what Chart.yaml declares.
    unfoldable pub plan_of : String → Result Chartfile → S → Result Bool
    unfolding needs_fetch first_dependency_error lock_exists
    plan_of chart_dir (err e) s =
        err (record e { message = concat ("source: read Chart.yaml: " ∷ e.message ∷ []) })
    plan_of chart_dir (ok meta) s =
        if needs_fetch chart_dir meta.dependencies s
        then unless_error (first_dependency_error meta.name chart_dir meta.dependencies s)
            (lock_exists meta.name (files.stat (files.join_path (chart_dir ∷ "Chart.lock" ∷ [])) s))
        else ok false

    unfoldable pub resolve_deps_plan : String → S → Result Bool
    unfolding plan_of
    resolve_deps_plan chart_dir s =
        plan_of chart_dir
          (charts.load_chartfile (files.join_path (chart_dir ∷ "Chart.yaml" ∷ [])) s) s
