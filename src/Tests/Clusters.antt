-- ===== src/Tests/Clusters.antt =====
-- Two clusters as one store of objects, with a namespace that one custom resource owns.
use Prim.Native.Char.{Char, code}
use dual_deployment_operator.Base.{
  ◌≡◌, ◌≢◌, inl, inr, refl, ap, String, true, false, Option, none, some, [], ◌∷◌, if◌then◌else◌,
  not_found, Error, Result, ok, err, eq_iff, concat, nat_eq, Bool-cases, subst, arith,
}
use dual_deployment_operator.Base.Affixes.{after_prefix}
use dual_deployment_operator.Json.{
  Value, object, get_text, Fields, end, field, lookup, insert, delete, lookup-insert, lookup-delete,
}
use dual_deployment_operator.Library.{GroupVersionKind}
use dual_deployment_operator.Api.{healthy, DualDeploymentOperator}
use dual_deployment_operator.Manifest.{owned_by_value, is_cluster_scoped}
use dual_deployment_operator.Deliver.Applier.{Client, owner_of}
use dual_deployment_operator.Deliver.Applier.Store.{Stores, IsClusterScoped}
use dual_deployment_operator.Controller.Reconciler.{finalizer_name}
use dual_deployment_operator.Tests.Machinery.{demo}
use dual_deployment_operator.Tests.World.{owned, resource_with, status_of}

-- The objects of both clusters.
abbrev as_object : Option Value → Option Fields
as_object (some (object u)) = some u
as_object _ = none

abbrev pub find : Fields → String → Option Fields
find w key = as_object (lookup key w)

abbrev pub key : String
key = "cNamespace/apps"

-- The clusters have different letters, and so do the cluster-scoped objects of one.
abbrev locate : Char → Char → GroupVersionKind → String → String → String
locate scoped spaced gvk ns name =
    let path = concat (gvk.kind ∷ "/" ∷ name ∷ []) in
    if is_cluster_scoped gvk.kind then String.◌∷◌ scoped path else String.◌∷◌ spaced path

abbrev found : Option Fields → Result Fields
found none = err (record { kind = not_found; message = "not found" })
found (some u) = ok u

abbrev at : Char → Char → Fields → String
at scoped spaced u =
    locate scoped spaced (demo.group_version_kind u) (demo.get_namespace u) (demo.get_name u)

abbrev pub client_of : Char → Char → Client Fields
client_of scoped spaced = record {
  get = λ gvk ns name w. (found (find w (locate scoped spaced gvk ns name)), w);
  patch = λ u manager w. (ok u, insert (at scoped spaced u) (object u) w);
  delete = λ u w. (none, delete (at scoped spaced u) w);
  now = λ w. (7, w);
}

found-ok : (r : Option Fields) (u : Fields) → found r ≡ ok u → r ≡ some u
found-ok r u h = ground arith

found-err : (r : Option Fields) (e : Error) → found r ≡ err e → r ≡ none
found-err r e h = ground arith

inserted :
    (at key : String) (u : Fields) (w : Fields)
    → at ≢ key
    → find (insert at (object u) w) key ≡ find w key
inserted at key u w other = rw (lookup-insert at key (object u) w) (ground (arith, eq_iff at key))

deleted_at : (at key : String) (w : Fields) → at ≢ key → find (delete at w) key ≡ find w key
deleted_at at key w other = rw (lookup-delete at key w) (ground (arith, eq_iff at key))

pub stores : (scoped spaced : Char) → Stores ⦃k = demo⦄ find (client_of scoped spaced)
stores scoped spaced = record {
  locate = locate scoped spaced;
  read = λ gvk ns name key w. refl;
  got = λ gvk ns name w u h. found-ok _ u h;
  missing = λ gvk ns name w e h gone. found-err _ e h;
  timed = λ key w. refl;
  patched = λ u manager key w other. inserted (at scoped spaced u) key u w other;
  deleted = λ u key w other. deleted_at (at scoped spaced u) key w other;
}

headed : (c : Char) (x : String) → nat_eq b'c' (code c) ≡ false → String.◌∷◌ c x ≢ key
unfolding after_prefix
headed c x h e =
    let other : after_prefix "c" (String.◌∷◌ c x) ≡ none = ground (arith, h) in
    absurd (ground (arith, other, ap (after_prefix "c") e))

pub scoped_of :
    (scoped spaced : Char)
    → nat_eq b'c' (code spaced) ≡ false
    → IsClusterScoped ⦃k = demo⦄ find (stores scoped spaced) key
unfolding demo stores
scoped_of scoped spaced other u same =
    let path = concat (demo.get_kind u ∷ "/" ∷ demo.get_name u ∷ []) in
    elim (Bool-cases (is_cluster_scoped (demo.get_kind u))) [
      | inl e ↦ e
      | inr e ↦ absurd (headed spaced path other (ground (arith, e, same)))
    ]

abbrev pub named : String → String → DualDeploymentOperator
named ns name = record (resource_with "ShootFirst" (status_of "Namespace" "apps" healthy ∷ []) []) {
  namespace = ns;
  name = name;
  finalizers = finalizer_name ∷ [];
}

-- The clients of the shoot that can be made.
pub made :
    (c : Client Fields)
    → ok (client_of "s" "t") ≡ ok c
    → (view : Stores ⦃k = demo⦄ find c) × IsClusterScoped ⦃k = demo⦄ find view key
made c same =
    subst (λ c'. (view : Stores ⦃k = demo⦄ find c') × IsClusterScoped ⦃k = demo⦄ find view key)
      (ground (arith, same)) (stores "s" "t", scoped_of "s" "t" refl)

pub asked_for :
    (read cr : DualDeploymentOperator)
    → ok read ≡ ok cr
    → owned_by_value ⦃k = demo⦄ cr.namespace cr.name
      ≡ owned_by_value ⦃k = demo⦄ read.namespace read.name
asked_for read cr got = ground (arith, got)

abbrev pub apps : Fields
apps = owned "Namespace" "apps" "other"

abbrev pub start : Fields
start = field key (object apps) end

pub foreign : owner_of ⦃k = demo⦄ apps ≢ owned_by_value ⦃k = demo⦄ "garden" "demo"
unfolding demo lookup owned_by_value get_text
foreign e = let h : false ≡ true = (eq_iff "other" "garden/demo").1 e in absurd (ground (arith, h))

pub claimed : owner_of ⦃k = demo⦄ apps ≢ ""
unfolding demo lookup get_text
claimed e = let h : false ≡ true = (eq_iff "other" "").1 e in absurd (ground (arith, h))
