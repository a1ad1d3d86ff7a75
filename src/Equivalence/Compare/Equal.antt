-- ===== src/Equivalence/Compare/Equal.antt =====
-- When the report of a comparison is empty (Compare in compare.go).
use dual_deployment_operator.Base.{
  ◌≡◌, refl, ◌↔◌, String, true, Option, none, some, List, [], ◌∷◌, arith, All, is_some,
}
use dual_deployment_operator.Json.{object, Fields}
use dual_deployment_operator.Library.{Library}
use dual_deployment_operator.Equivalence.Objects.{ObjectSet, find_object}
use dual_deployment_operator.Equivalence.Compare.{
  Report, is_nil, reports_equal, deep_equal, mismatches, only_in, compare_found, report_absent,
  prepared_object, compare_sets,
}
use dual_deployment_operator.Equivalence.Compare.Keys.{append-eq-nil_iff, sort_strings-eq-nil_iff}

is_nil_iff : {A : Type 0} (xs : List A) → (is_nil xs ≡ true) ↔ (xs ≡ [])
is_nil_iff [] = (λ h. refl, λ h. refl)
is_nil_iff (x ∷ xs) = (λ h. cc, λ h. cc)

module _ ⦃k : Library⦄ where
  -- A counterpart that is equal once both are prepared.
  abbrev pub IsEqualTo : Fields → Option Fields → Type 0
  IsEqualTo g none = ⊥
  IsEqualTo g (some o) = deep_equal (object (prepared_object g)) (object (prepared_object o)) ≡ true

  abbrev pub IsMatched : ObjectSet → String × Fields → Type 0
  IsMatched op (key, g) = IsEqualTo g (find_object key op)

  abbrev pub IsPresent : ObjectSet → String × Fields → Type 0
  IsPresent golden (key, o) = is_some (find_object key golden) ≡ true

  found_iff :
      (g : Fields) (found : Option Fields)
      → ((compare_found g found ≡ []) × (report_absent g found ≡ [])) ↔ IsEqualTo g found
  unfolding compare_found report_absent
  found_iff g none = (λ h. cc, λ h. absurd h)
  found_iff g (some o) = ground arith

  present_iff :
      (o : Fields) (found : Option Fields) → (report_absent o found ≡ []) ↔ (is_some found ≡ true)
  unfolding report_absent
  present_iff o none = (λ h. cc, λ h. cc)
  present_iff o (some g) = (λ h. refl, λ h. refl)

  compared_iff :
      (golden op : ObjectSet)
      → ((mismatches golden op ≡ []) × (only_in golden op ≡ [])) ↔ All (IsMatched op) golden
  unfolding mismatches only_in
  compared_iff [] op = (λ h. tt, λ h. (refl, refl))
  compared_iff ((key, g) ∷ golden) op =
      let found = find_object key op in
      let here = found_iff g found in
      let rest = compared_iff golden op in
      let compared = append-eq-nil_iff (compare_found g found) (mismatches golden op) in
      let absent = append-eq-nil_iff (report_absent g found) (only_in golden op) in
      (
        λ h.
            let c = compared.0 h.0 in
            let a = absent.0 h.1 in (here.0 (c.0, a.0), rest.0 (c.1, a.1)),
        λ h.
            let a = here.1 h.0 in
            let b = rest.1 h.1 in (compared.1 (a.0, b.0), absent.1 (a.1, b.1)),
      )

  only_in_iff : (op golden : ObjectSet) → (only_in op golden ≡ []) ↔ All (IsPresent golden) op
  unfolding only_in
  only_in_iff [] golden = (λ h. tt, λ h. refl)
  only_in_iff ((key, o) ∷ op) golden =
      let found = find_object key golden in
      let here = present_iff o found in
      let rest = only_in_iff op golden in
      let split = append-eq-nil_iff (report_absent o found) (only_in op golden) in
      (λ h. (here.0 (split.0 h).0, rest.0 (split.0 h).1), λ h. split.1 (here.1 h.0, rest.1 h.1))

  reports_equal_iff :
      (r : Report)
      → (reports_equal r ≡ true) ↔ ((r.mismatched ≡ []) × (r.missing_op ≡ []) × (r.extra_op ≡ []))
  unfolding reports_equal
  reports_equal_iff r =
      ground (arith, is_nil_iff r.mismatched, is_nil_iff r.missing_op, is_nil_iff r.extra_op)

  -- The report of two sets says that they are equal if and only if each object of the golden set
  -- has an object under its key in the operator's set that is deeply equal once both are stripped
  -- and normalised, and each key of the operator's set is one of the golden set.
  pub compare_sets_iff :
      (golden op : ObjectSet)
      → (reports_equal (compare_sets golden op) ≡ true)
        ↔ (All (IsMatched op) golden × All (IsPresent golden) op)
  unfolding compare_sets
  compare_sets_iff golden op =
      let report = reports_equal_iff (compare_sets golden op) in
      let mismatched = sort_strings-eq-nil_iff (mismatches golden op) in
      let missing = sort_strings-eq-nil_iff (only_in golden op) in
      let extra = sort_strings-eq-nil_iff (only_in op golden) in
      let matched = compared_iff golden op in
      let present = only_in_iff op golden in
      (
        λ h.
            let parts = report.0 h in
            (matched.0 (mismatched.0 parts.0, missing.0 parts.1), present.0 (extra.0 parts.2)),
        λ h.
            let parts = matched.1 h.0 in
            report.1 (mismatched.1 parts.0, missing.1 parts.1, extra.1 (present.1 h.1)),
      )
