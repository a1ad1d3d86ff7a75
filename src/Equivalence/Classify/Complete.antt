-- ===== src/Equivalence/Classify/Complete.antt =====
-- Where documents and secrets go (UnwrapManagedResources in golden_classify.go).
use dual_deployment_operator.Base.{
  ◌≡◌, ◌⊎◌, String, false, Option, none, some, List, [], ◌∷◌, All, keep, Result, ok, one_of, ◌==◌,
  Bool, not, ◌&&◌, if◌then◌else◌,
}
use dual_deployment_operator.Json.{Fields, Items}
use dual_deployment_operator.Library.{Library}
use dual_deployment_operator.Equivalence.Objects.Keys.{or_else}
use dual_deployment_operator.Equivalence.Classify.{is_managed_resource}
use dual_deployment_operator.Equivalence.Classify.Unwrapping.{references, listed_names, Payloads}

module _ ⦃k : Library⦄ where
  -- What is neither a managed resource nor a Secret with one of the names.
  abbrev pub is_rest : List String → Fields → Bool
  is_rest names d =
      not (is_managed_resource d) && not (k.get_kind d == "Secret" && one_of names (k.get_name d))

  -- The last of the Secrets with a name, in whatever namespaces they are.
  abbrev pub last_secret : String → List Fields → Option Fields
  last_secret name [] = none
  last_secret name (d ∷ docs) =
      or_else (last_secret name docs)
        (if k.get_kind d == "Secret" && k.get_name d == name then some d else none)

  -- The references of a managed resource can be read.
  abbrev pub IsReadable : Fields → Type 0
  IsReadable d =
      (is_managed_resource d ≡ false) ⊎ ((listed : Option Items) × (references d ≡ ok listed))

module _ ⦃k : Library⦄ (decode_base64 : String → Result String) where
  -- What an unwrapping gives.
  pub record AreUnwrapped (docs from_mr passthrough : List Fields) : Type 0 where
    pub readable : All IsReadable docs
    pub payloads :
        Payloads decode_base64 (λ name. last_secret name docs) (listed_names docs) from_mr
    pub rest : passthrough ≡ keep (is_rest (listed_names docs)) docs
