-- ===== src/Transform/Selection.antt =====
-- internal/transform/selector.go
use dual_deployment_operator.Base.{
  Bool, true, false, ◌==◌, ◌&&◌, not, if◌then◌else◌, Result, ok, err,
}
use dual_deployment_operator.Library.{Library}
use dual_deployment_operator.Api.{Selector}
use dual_deployment_operator.Manifest.{Manifest}

-- A glob that cannot be parsed matches nothing.
abbrev pub or_no_match : Result Bool → Bool
or_no_match (ok b) = b
or_no_match (err e) = false

module _ ⦃k : Library⦄ where
  open k use {get_kind, get_name, path_match}

  unfoldable pub matches : Manifest → Selector → Bool
  matches m sel =
      if not (sel.kind == "") && not (get_kind m.unstructured == sel.kind)
      then false
      else if not (sel.name == "")
          && not (or_no_match (path_match sel.name (get_name m.unstructured)))
      then false
      else if not (sel.origin == "") && not (m.origin == sel.origin)
      then false
      else true
