-- ===== src/Deliver/Order/Sequence.antt =====
-- The order of delivery, spelled out: the classes of kinds, one after the other.
use mathlib.Core.List.{append_assoc}
use dual_deployment_operator.Base.{
  ℕ, ◌-◌, ◌≤◌, ◌≡◌, ◌∙◌, ap, fun_ext, String, Bool, List, [], ◌∷◌, ◌==◌, arith, ltb, one_of,
  if◌then◌else◌, All, ◌++◌, ◌||◌, not, keep, nat_eq, inl, inr, refl, sym, subst, false, eq_iff,
  Bool-cases,
}
use dual_deployment_operator.Library.{Library}
use dual_deployment_operator.Api.{ResourceStatus}
use dual_deployment_operator.Manifest.{Manifest}
use dual_deployment_operator.Deliver.Order.{
  apply_priority, rbac_kinds, sort_stable, status_priority, sort_status_for_delete,
  manifest_priority, sort_for_apply,
}
use dual_deployment_operator.Deliver.Order.Buckets.{class, classes, sort-classes}

choice-le :
    (a b c d : Bool) → (if a then 0 else if b then 1 else if c then 2 else if d then 4 else 3) ≤ 4
choice-le a b c d = ground arith

pub apply_priority-le : (kind : String) → apply_priority kind ≤ 4
unfolding apply_priority
apply_priority-le kind =
    choice-le (kind == "Namespace") (kind == "CustomResourceDefinition") (one_of rbac_kinds kind)
      (one_of ("ValidatingWebhookConfiguration" ∷ "MutatingWebhookConfiguration" ∷ []) kind)

All-always {ℓ} : {A : Type 0} (P : A → Type ℓ) → ((x : A) → P x) → (xs : List A) → All P xs
All-always P f [] = tt
All-always P f (x ∷ xs) = (f x, All-always P f xs)

-- The place of a status in a deletion.
abbrev pub delete_priority : ResourceStatus → ℕ
delete_priority rs = 4 - status_priority rs

flip_priority : (a b : ℕ) → a ≤ 4 → b ≤ 4 → ltb (4 - a) (4 - b) ≡ ltb b a
flip_priority a b h k = ground arith

-- A deletion by status goes through the priorities of the kinds in the reverse of the apply order,
-- and within each of them it keeps the order of the inventory.
pub sort_status_for_delete-classes :
    (prev : List ResourceStatus) → sort_status_for_delete prev ≡ classes delete_priority 5 prev
unfolding sort_status_for_delete
sort_status_for_delete-classes prev =
    ap (λ less. sort_stable less prev) (fun_ext λ i. fun_ext λ j. flipped i j)
    ∙ sort-classes delete_priority 5 prev (All-always _ (λ rs. omega arith) prev)
  where
    flipped :
        (i j : ResourceStatus)
        → ltb (status_priority j) (status_priority i) ≡ ltb (delete_priority i) (delete_priority j)
    flipped i j = ground (
      arith,
      flip_priority (status_priority i) (status_priority j),
      apply_priority-le i.kind,
      apply_priority-le j.kind,
    )

-- The five groups of kinds, written out.
abbrev pub rbac : String → Bool
rbac kind =
    kind == "ClusterRole"
    || kind == "ClusterRoleBinding"
    || kind == "Role"
    || kind == "RoleBinding"
    || kind == "ServiceAccount"

abbrev pub webhook : String → Bool
webhook kind = kind == "ValidatingWebhookConfiguration" || kind == "MutatingWebhookConfiguration"

abbrev pub crd : String → Bool
crd kind = kind == "CustomResourceDefinition"

abbrev pub plain_kind : String → Bool
plain_kind kind = not (kind == "Namespace" || crd kind || rbac kind || webhook kind)

abbrev IsGrouped : String → Type 0
IsGrouped kind =
    (nat_eq (apply_priority kind) 0 ≡ (kind == "Namespace"))
    × (nat_eq (apply_priority kind) 1 ≡ crd kind)
    × (nat_eq (apply_priority kind) 2 ≡ rbac kind)
    × (nat_eq (apply_priority kind) 3 ≡ plain_kind kind)
    × (nat_eq (apply_priority kind) 4 ≡ webhook kind)

-- A property of a text holds if it holds of some literals, and of all others.
on_literals {ℓ} :
    (P : String → Type ℓ) (literals : List String) (x : String)
    → All P literals
    → (one_of literals x ≡ false → P x)
    → P x
on_literals P [] x h other = other refl
on_literals P (y ∷ literals) x h other = elim (Bool-cases (x == y)) [
  | inl e ↦ subst P (sym ((eq_iff x y).0 e)) h.0
  | inr e ↦ on_literals P literals x h.1 (λ e'. other (ground (arith, e, e')))
]

apply_priority-IsGrouped : (kind : String) → IsGrouped kind
unfolding apply_priority
apply_priority-IsGrouped kind =
    on_literals IsGrouped
      ("Namespace" ∷ "CustomResourceDefinition" ∷ "ClusterRole" ∷ "ClusterRoleBinding" ∷ "Role"
        ∷ "RoleBinding" ∷ "ServiceAccount" ∷ "ValidatingWebhookConfiguration"
        ∷ "MutatingWebhookConfiguration" ∷ [])
      kind
      (
        (refl, refl, refl, refl, refl),
        (
          (refl, refl, refl, refl, refl),
          (
            (refl, refl, refl, refl, refl),
            (
              (refl, refl, refl, refl, refl),
              (
                (refl, refl, refl, refl, refl),
                (
                  (refl, refl, refl, refl, refl),
                  (
                    (refl, refl, refl, refl, refl),
                    ((refl, refl, refl, refl, refl), ((refl, refl, refl, refl, refl), tt)),
                  ),
                ),
              ),
            ),
          ),
        ),
      )
      (λ other. ground (arith, other))

five_parts :
    {A : Type 0} (a b c d e : List A) → (((([] ++ a) ++ b) ++ c) ++ d) ++ e ≡ a ++ b ++ c ++ d ++ e
five_parts a b c d e = simp append_assoc

module _ ⦃k : Library⦄ where
  -- The manifests of some kinds, in order.
  abbrev pub of_kinds : (String → Bool) → List Manifest → List Manifest
  of_kinds test ms = keep (λ m. test (k.get_kind m.unstructured)) ms

  class-of_kinds :
      (c : ℕ) (test : String → Bool) (ms : List Manifest)
      → ((kind : String) → nat_eq (apply_priority kind) c ≡ test kind)
      → class manifest_priority c ms ≡ of_kinds test ms
  class-of_kinds c test ms same =
      ap (λ t. keep t ms) (fun_ext λ m. same (k.get_kind m.unstructured))

  -- Namespaces are applied first, then CRDs, then cluster roles, roles, their bindings and service
  -- accounts, then all other kinds, and last the webhook configurations, and within each of these
  -- groups the order of the render is kept.
  pub sort_for_apply-of_kinds :
      (ms : List Manifest)
      → sort_for_apply ms
        ≡ of_kinds (λ kind. kind == "Namespace") ms
          ++ of_kinds crd ms
          ++ of_kinds rbac ms
          ++ of_kinds plain_kind ms
          ++ of_kinds webhook ms
  unfolding sort_for_apply
  sort_for_apply-of_kinds ms =
      sort-classes manifest_priority 5 ms
        (All-always _ (λ m. omega (arith, apply_priority-le (k.get_kind m.unstructured))) ms)
      ∙ rw
          (
            class-of_kinds 0 (λ kind. kind == "Namespace") ms
                (λ kind. (apply_priority-IsGrouped kind).0),
            class-of_kinds 1 crd ms (λ kind. (apply_priority-IsGrouped kind).1),
            class-of_kinds 2 rbac ms (λ kind. (apply_priority-IsGrouped kind).2),
            class-of_kinds 3 plain_kind ms (λ kind. (apply_priority-IsGrouped kind).3),
            class-of_kinds 4 webhook ms (λ kind. (apply_priority-IsGrouped kind).4),
          )
          (five_parts (of_kinds (λ kind. kind == "Namespace") ms) (of_kinds crd ms)
            (of_kinds rbac ms) (of_kinds plain_kind ms) (of_kinds webhook ms))
