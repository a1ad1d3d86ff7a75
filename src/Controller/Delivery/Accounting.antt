-- ===== src/Controller/Delivery/Accounting.antt =====
-- One status for each manifest, whatever fails, and the calls that a delivery makes.
use dual_deployment_operator.Base.{suc, ◌≡◌, refl, ap, String, List, [], ◌∷◌, Keeps, All, length}
use dual_deployment_operator.Library.{Library}
use dual_deployment_operator.Manifest.{Manifest}
use dual_deployment_operator.Deliver.Applier.{Applier}
use dual_deployment_operator.Controller.Delivery.{apply_loop, apply_all}

module _ {S : Type 0} where
  apply_loop-Keeps :
      (P : S → Type 0) (applier : Applier S) (ms : List Manifest) (owned_by : String)
      → All (λ m. Keeps P (applier.apply m owned_by)) ms
      → Keeps P (apply_loop applier ms owned_by)
  unfolding apply_loop
  apply_loop-Keeps P applier [] owned_by h = record { at = λ s p. p }
  apply_loop-Keeps P applier (m ∷ ms) owned_by h = record {
    at = λ s p. (apply_loop-Keeps P applier ms owned_by h.1).at _ (h.0.at s p);
  }

  apply_loop-statuses :
      (applier : Applier S) (ms : List Manifest) (owned_by : String) (s : S)
      → length (apply_loop applier ms owned_by s).0.statuses ≡ length ms
  unfolding apply_loop
  apply_loop-statuses applier [] owned_by s = refl
  apply_loop-statuses applier (m ∷ ms) owned_by s =
      ap suc (apply_loop-statuses applier ms owned_by _)

module _ {S : Type 0} ⦃k : Library⦄ where
  -- Applying a render makes no other call than applying each of its manifests: what these keep, it
  -- keeps.
  pub apply_all-Keeps :
      (P : S → Type 0) (applier : Applier S) (ms : List Manifest) (owned_by : String)
      → All (λ m. Keeps P (applier.apply m owned_by)) ms
      → Keeps P (apply_all applier ms owned_by)
  unfolding apply_all
  apply_all-Keeps P applier ms owned_by h = record {
    at = (apply_loop-Keeps P applier ms owned_by h).at;
  }

  -- Whatever fails, there are as many statuses as manifests.
  pub apply_all-statuses :
      (applier : Applier S) (ms : List Manifest) (owned_by : String) (s : S)
      → length (apply_all applier ms owned_by s).0.statuses ≡ length ms
  unfolding apply_all
  apply_all-statuses applier ms owned_by s = apply_loop-statuses applier ms owned_by s
