-- ===== src/Source/Plan/Fetching.antt =====
-- When subcharts are fetched (resolveDepsPlan in helmloader.go).
use dual_deployment_operator.Base.{
  String, ◌≡◌, ◌≢◌, refl, Bool, true, false, Option, none, some, ◌⊎◌, inl, inr, ◌↔◌, Error, Result,
  ok, err, arith, Bool-cases, List, [], ◌∷◌, All, ◌||◌, eq_iff, has_prefix, if◌then◌else◌,
}
use dual_deployment_operator.Library.{Library}
use dual_deployment_operator.Source.Plan.{
  FileSystem, Dependency, Chartfile, ChartFiles, unpacked_subchart_exists, vendored_subchart_exists,
  needs_fetch, dependency_error, first_dependency_error, lock_exists, plan_of, resolve_deps_plan,
  unless_error,
}

true-false : true ≢ false
true-false h = cc

-- What the plan says of its three parts: whether something is fetched, the first dependency that
-- cannot be resolved, and the lock.
plan_parts_iff :
    (fetch : Bool) (error : Option Error) (lock : Result Bool) (V B L : Type 0)
    → (fetch ≡ false) ↔ V
    → (error ≡ none) ↔ B
    → (lock ≡ ok true) ↔ L
    → lock ≢ ok false
    → (((if fetch then unless_error error lock else ok false) ≡ ok false) ↔ V)
      × (((if fetch then unless_error error lock else ok false) ≡ ok true) ↔ (¬ V × B × L))
plan_parts_iff false error lock V B L v b l never =
    ((λ h. v.0 refl, λ h. refl), (λ h. cc, λ h. absurd (h.0 (v.0 refl))))
plan_parts_iff true (some e) lock V B L v b l never = (
  (λ h. cc, λ x. absurd (true-false (v.1 x))),
  (λ h. cc, λ h. let x : some e ≡ none = b.1 h.1 in cc),
)
plan_parts_iff true none lock V B L v b l never = (
  (λ h. absurd (never h), λ x. absurd (true-false (v.1 x))),
  (λ h. (λ x. true-false (v.1 x), b.0 refl, l.0 h), λ h. l.1 h.2),
)

module _ {S : Type 0} (files : FileSystem S) (charts : ChartFiles S) ⦃k : Library⦄ where
  abbrev pub IsVendored : String → S → Dependency → Type 0
  IsVendored chart_dir s d = vendored_subchart_exists files chart_dir d.name s ≡ true

  -- A dependency that a build can resolve: it has a repository of a supported scheme, or none and is
  -- unpacked.
  abbrev pub IsBuildable : String → S → Dependency → Type 0
  IsBuildable chart_dir s d =
      ((d.repository ≡ "") × (unpacked_subchart_exists files chart_dir d.name s ≡ true))
      ⊎ ((d.repository ≢ "")
          × ((has_prefix d.repository "file://" || charts.is_oci d.repository) ≡ true))

  needs_fetch_iff :
      (chart_dir : String) (ds : List Dependency) (s : S)
      → (needs_fetch files charts chart_dir ds s ≡ false) ↔ All (IsVendored chart_dir s) ds
  unfolding needs_fetch
  needs_fetch_iff chart_dir [] s = (λ h. tt, λ h. refl)
  needs_fetch_iff chart_dir (d ∷ ds) s = ground (arith, needs_fetch_iff chart_dir ds s)

  dependency_error_iff :
      (name chart_dir : String) (d : Dependency) (s : S)
      → (dependency_error files charts name chart_dir d s ≡ none) ↔ IsBuildable chart_dir s d
  unfolding dependency_error
  dependency_error_iff name chart_dir d s = ground (arith, eq_iff d.repository "")

  first_dependency_error_iff :
      (name chart_dir : String) (ds : List Dependency) (s : S)
      → (first_dependency_error files charts name chart_dir ds s ≡ none)
        ↔ All (IsBuildable chart_dir s) ds
  unfolding first_dependency_error
  first_dependency_error_iff name chart_dir [] s = (λ h. tt, λ h. refl)
  first_dependency_error_iff name chart_dir (d ∷ ds) s = ground (
    arith,
    dependency_error_iff name chart_dir d s,
    first_dependency_error_iff name chart_dir ds s,
  )

  abbrev pub HasLock : String → S → Type 0
  HasLock chart_dir s =
      (is_dir : Bool) × (files.stat (files.join_path (chart_dir ∷ "Chart.lock" ∷ [])) s ≡ ok is_dir)

  lock_exists_iff :
      (name : String) (r : Result Bool)
      → (lock_exists files charts name r ≡ ok true) ↔ ((is_dir : Bool) × (r ≡ ok is_dir))
  unfolding lock_exists
  lock_exists_iff name (ok is_dir) = (λ h. (is_dir, refl), λ h. refl)
  lock_exists_iff name (err e) = elim (Bool-cases (files.is_not_exist e)) [
    | inl p ↦ (λ h. absurd (ground arith), λ h. cc)
    | inr p ↦ (λ h. absurd (ground arith), λ h. cc)
  ]

  lock_exists-never-false :
      (name : String) (r : Result Bool) → lock_exists files charts name r ≢ ok false
  unfolding lock_exists
  lock_exists-never-false name (ok is_dir) h = cc
  lock_exists-never-false name (err e) h = ground arith

  plan_of_iff :
      (chart_dir : String) (meta : Chartfile) (s : S)
      → ((plan_of files charts chart_dir (ok meta) s ≡ ok false)
          ↔ All (IsVendored chart_dir s) meta.dependencies)
        × ((plan_of files charts chart_dir (ok meta) s ≡ ok true) ↔ (
            ¬ All (IsVendored chart_dir s) meta.dependencies
            × All (IsBuildable chart_dir s) meta.dependencies
            × HasLock chart_dir s))
  unfolding plan_of
  plan_of_iff chart_dir meta s =
      let lock =
        lock_exists files charts meta.name
          (files.stat (files.join_path (chart_dir ∷ "Chart.lock" ∷ [])) s) in
      let stat = files.stat (files.join_path (chart_dir ∷ "Chart.lock" ∷ [])) s in
      plan_parts_iff (needs_fetch files charts chart_dir meta.dependencies s)
        (first_dependency_error files charts meta.name chart_dir meta.dependencies s) lock
        (All (IsVendored chart_dir s) meta.dependencies)
        (All (IsBuildable chart_dir s) meta.dependencies) (HasLock chart_dir s)
        (needs_fetch_iff chart_dir meta.dependencies s)
        (first_dependency_error_iff meta.name chart_dir meta.dependencies s)
        (lock_exists_iff meta.name stat) (lock_exists-never-false meta.name stat)

  -- If Chart.yaml can be read, the plan is to fetch nothing if and only if every dependency is
  -- vendored; and it is to fetch the dependencies if and only if some dependency is not vendored,
  -- each one has a repository that a build can resolve or is unpacked without one, and there is a
  -- Chart.lock. In all other cases it is an error.
  pub resolve_deps_plan_iff :
      (chart_dir : String) (meta : Chartfile) (s : S)
      → charts.load_chartfile (files.join_path (chart_dir ∷ "Chart.yaml" ∷ [])) s ≡ ok meta
      → ((resolve_deps_plan files charts chart_dir s ≡ ok false)
          ↔ All (IsVendored chart_dir s) meta.dependencies)
        × ((resolve_deps_plan files charts chart_dir s ≡ ok true) ↔ (
            ¬ All (IsVendored chart_dir s) meta.dependencies
            × All (IsBuildable chart_dir s) meta.dependencies
            × HasLock chart_dir s))
  unfolding resolve_deps_plan
  resolve_deps_plan_iff chart_dir meta s loaded = rw (loaded) (plan_of_iff chart_dir meta s)
