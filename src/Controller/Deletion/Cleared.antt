-- ===== src/Controller/Deletion/Cleared.antt =====
-- What has to be gone before a deletion lets go of the custom resource, written out on the
-- inventories and on what the clusters answer.
use dual_deployment_operator.Base.{
  ◌≡◌, refl, ◌≢◌, ◌⊎◌, inl, inr, String, true, none, some, List, [], ◌∷◌, Bool-cases, All, arith,
  eq_iff,
}
use dual_deployment_operator.Json.{get_text}
use dual_deployment_operator.Library.{Library}
use dual_deployment_operator.Api.{ResourceStatus, DualDeploymentOperator}
use dual_deployment_operator.Deliver.Order.{sort_status_for_delete, manifest_from_status}
use dual_deployment_operator.Deliver.Order.Buckets.{All-sort, All-of_sort}
use dual_deployment_operator.Deliver.Applier.{Applier}
use dual_deployment_operator.Controller.Prune.{is_retained_crd}
use dual_deployment_operator.Controller.Delivery.{add_error}
use dual_deployment_operator.Controller.Delivery.Complete.{add_error-nil}
use dual_deployment_operator.Controller.Deletion.{deletable, delete_loop, delete_render}

-- A CRD under a retention policy that does not say Delete, which stays.
abbrev pub IsProtected : String → ResourceStatus → Type 0
IsProtected crds rs = (rs.kind ≡ "CustomResourceDefinition") × (crds ≢ "Delete")

abbrev pub IsForced : DualDeploymentOperator → Type 0
IsForced cr = get_text "dual-deployment-operator.cc.sap/force-delete" cr.annotations ≡ "true"

abbrev pub policy : DualDeploymentOperator → String
policy cr = cr.spec.retention_policy.crds

is_retained_crd-IsProtected :
    (cr : DualDeploymentOperator) (rs : ResourceStatus)
    → is_retained_crd cr rs ≡ true
    → IsProtected (policy cr) rs
unfolding is_retained_crd
is_retained_crd-IsProtected cr rs h =
    ground (arith, h, eq_iff rs.kind "CustomResourceDefinition", eq_iff (policy cr) "Delete")

IsProtected-is_retained_crd :
    (cr : DualDeploymentOperator) (rs : ResourceStatus)
    → IsProtected (policy cr) rs
    → is_retained_crd cr rs ≡ true
unfolding is_retained_crd
IsProtected-is_retained_crd cr rs h =
    ground (arith, h, eq_iff rs.kind "CustomResourceDefinition", eq_iff (policy cr) "Delete")

pub deletable-AllProtected :
    (cr : DualDeploymentOperator) (statuses : List ResourceStatus)
    → deletable cr statuses ≡ 0
    → All (IsProtected (policy cr)) statuses
unfolding deletable
deletable-AllProtected cr [] h = tt
deletable-AllProtected cr (rs ∷ statuses) h = elim (Bool-cases (is_retained_crd cr rs)) [
  | inl e ↦ (
    is_retained_crd-IsProtected cr rs e,
    deletable-AllProtected cr statuses (rw (e, deletable) at h),
  )
  | inr e ↦ absurd (ground (arith, e, h))
]

pub AllProtected-deletable :
    (cr : DualDeploymentOperator) (statuses : List ResourceStatus)
    → All (IsProtected (policy cr)) statuses
    → deletable cr statuses ≡ 0
unfolding deletable
AllProtected-deletable cr [] h = refl
AllProtected-deletable cr (rs ∷ statuses) h =
    rw (IsProtected-is_retained_crd cr rs h.0) (AllProtected-deletable cr statuses h.1)

module _ {S : Type 0} ⦃k : Library⦄ where
  -- The entry is protected, or its deletion has succeeded in some world.
  abbrev pub IsGone : Applier S → String → String → ResourceStatus → Type 0
  IsGone a owned_by crds rs =
      IsProtected crds rs ⊎ ((s : S) × ((a.delete (manifest_from_status rs) owned_by s).0 ≡ none))

  -- The entry is protected, or its deletion succeeds in every world.
  abbrev pub IsDeletable : Applier S → String → String → ResourceStatus → Type 0
  IsDeletable a owned_by crds rs =
      IsProtected crds rs ⊎ ((s : S) → (a.delete (manifest_from_status rs) owned_by s).0 ≡ none)

  module _ (a : Applier S) (cr : DualDeploymentOperator) (owned_by : String) where
    delete_loop-AllGone :
        (statuses : List ResourceStatus) (s : S)
        → (delete_loop a cr owned_by statuses s).0 ≡ []
        → All (IsGone a owned_by (policy cr)) statuses
    unfolding delete_loop
    delete_loop-AllGone [] s h = tt
    delete_loop-AllGone (rs ∷ statuses) s h = elim (Bool-cases (is_retained_crd cr rs)) [
      | inl e ↦
          (let rest : (delete_loop a cr owned_by statuses s).0 ≡ [] = rw (e, delete_loop) at h in
            (inl (is_retained_crd-IsProtected cr rs e), delete_loop-AllGone statuses s rest))
      | inr e ↦
          (let (failure, s') = a.delete (manifest_from_status rs) owned_by s in
            let both : add_error failure (delete_loop a cr owned_by statuses s').0 ≡ [] =
              rw (e, delete_loop) at h in
            let split = add_error-nil failure _ both in
            (inr (s, split.0), delete_loop-AllGone statuses s' split.1))
    ]

    delete_loop-clean :
        (statuses : List ResourceStatus) (s : S)
        → All (IsDeletable a owned_by (policy cr)) statuses
        → (delete_loop a cr owned_by statuses s).0 ≡ []
    unfolding delete_loop
    delete_loop-clean [] s h = refl
    delete_loop-clean (rs ∷ statuses) s h = elim (Bool-cases (is_retained_crd cr rs)) [
      | inl e ↦ rw (e, delete_loop) (delete_loop-clean statuses s h.1)
      | inr e ↦ elim h.0 [
        | inl kept ↦ absurd (ground (arith, e, IsProtected-is_retained_crd cr rs kept))
        | inr done ↦ rw (e, delete_loop) (rw (done s) (delete_loop-clean statuses _ h.1))
      ]
    ]

    pub delete_render-AllGone :
        (statuses : List ResourceStatus) (s : S)
        → (delete_render (some a) cr owned_by statuses s).0 ≡ []
        → All (IsGone a owned_by (policy cr)) statuses
    unfolding delete_render sort_status_for_delete
    delete_render-AllGone statuses s h =
        All-of_sort _ _ statuses (delete_loop-AllGone (sort_status_for_delete statuses) s h)

    pub delete_render-clean :
        (statuses : List ResourceStatus) (s : S)
        → All (IsDeletable a owned_by (policy cr)) statuses
        → (delete_render (some a) cr owned_by statuses s).0 ≡ []
    unfolding delete_render sort_status_for_delete
    delete_render-clean statuses s h =
        delete_loop-clean (sort_status_for_delete statuses) s (All-sort _ _ statuses h)
