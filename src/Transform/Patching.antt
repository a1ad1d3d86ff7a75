-- ===== src/Transform/Patching.antt =====
-- internal/transform/patch.go
pub mod Targets
use dual_deployment_operator.Base.{
  String, Bool, true, false, Option, none, some, List, [], ◌∷◌, if◌then◌else◌, Result, ok, err,
  plain, concat, cons_ok, is_some,
}
use dual_deployment_operator.Json.{Fields}
use dual_deployment_operator.Library.{Library, GroupVersionKind}
use dual_deployment_operator.Api.{PatchSpec, JsonPatchOp}
use dual_deployment_operator.Manifest.{Manifest}
use dual_deployment_operator.Transform.Selection.{matches}

infixl 5 ◌>>=◌
abbrev ◌>>=◌ {ℓ κ} : {A : Type ℓ} {B : Type κ} → Result A → (A → Result B) → Result B
ok a >>= f = f a
err e >>= f = err e

abbrev pub same_bool : Bool → Bool → Bool
same_bool true b = b
same_bool false b = if b then false else true

abbrev pub not_empty : List JsonPatchOp → Bool
not_empty [] = false
not_empty (x ∷ xs) = true

module _ ⦃k : Library⦄ where
  open k use {
    get_kind, get_name, group_version_kind, marshal_object, unmarshal_object, marshal_json_patch,
    decode_patch, merge_patch, scheme_new, strategic_merge_patch,
  }

  -- Whether a typed struct is registered for the kind.
  unfoldable pub typed_struct_for : GroupVersionKind → Option GroupVersionKind
  typed_struct_for gvk = elim (scheme_new gvk) [
    | err e ↦ none
    | ok is_unstructured ↦ (if is_unstructured then none else some gvk)
  ]

  unfoldable pub strategic_merge : Fields → String → String → Result String
  unfolding typed_struct_for
  strategic_merge u orig patch = elim (typed_struct_for (group_version_kind u)) [
    | some data_struct ↦ strategic_merge_patch orig patch data_struct
    | none ↦ merge_patch orig patch
  ]

  unfoldable pub json_patch : List JsonPatchOp → String → Result String
  json_patch ops orig = do jp ← marshal_json_patch ops; decoded ← decode_patch jp; decoded orig

  unfoldable pub patched_text : PatchSpec → Fields → String → Result String
  unfolding strategic_merge json_patch
  patched_text spec u orig = elim spec.strategic_merge [
    | some sm ↦ strategic_merge u orig sm.raw
    | none ↦ json_patch spec.json_patch orig
  ]

  unfoldable pub apply_one : PatchSpec → Fields → Result Fields
  unfolding patched_text
  apply_one spec u = do
    orig ← marshal_object u
    result ← patched_text spec u orig
    unmarshal_object result

  -- The body of the loop.
  unfoldable pub patch_manifest : PatchSpec → Manifest → Result Manifest
  unfolding apply_one
  patch_manifest spec m =
      let u = m.unstructured in
      if matches m spec.target
      then (elim (apply_one spec u) [
        | ok u' ↦ ok (record { unstructured = u'; origin = m.origin })
        | err e ↦ err (record e {
          message = concat ("patch " ∷ get_kind u ∷ "/" ∷ get_name u ∷ ": " ∷ e.message ∷ []);
        })
      ])
      else ok m

  unfoldable pub patch_manifests : PatchSpec → List Manifest → Result (List Manifest)
  unfolding patch_manifest
  patch_manifests spec [] = ok []
  patch_manifests spec (m ∷ ms) =
      let rest = patch_manifests spec ms in
      elim (patch_manifest spec m) [ err e ↦ err e | ok m' ↦ cons_ok m' rest ]

  unfoldable pub apply_patch : PatchSpec → List Manifest → Result (List Manifest)
  unfolding patch_manifests
  apply_patch spec ms =
      if same_bool (is_some spec.strategic_merge) (not_empty spec.json_patch)
      then err (plain "exactly one of strategicMerge or jsonPatch must be set")
      else patch_manifests spec ms
