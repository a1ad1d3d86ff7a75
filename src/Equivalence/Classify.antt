-- ===== src/Equivalence/Classify.antt =====
-- internal/equivalence/golden_classify.go: which objects of a golden render are compared with the
-- seed and which with the shoot. `decode_base64` is `base64.StdEncoding.DecodeString`.
pub mod Passes
pub mod Kept
pub mod Unwrapping
pub mod Complete
use dual_deployment_operator.Base.{
  ℕ, String, Bool, true, false, Option, none, some, List, [], ◌∷◌, ◌++◌, ◌==◌, ◌&&◌, ◌||◌, not,
  if◌then◌else◌, Error, Result, ok, err, plain, concat, cons_ok, any, keep, one_of, nat_eq, is_some,
}
use dual_deployment_operator.Json.{Value, text, object, Items, done, item, Fields, lookup, size}
use dual_deployment_operator.Library.{Library}
use dual_deployment_operator.Transform.RewriteWebhookUrl.{text_or_empty}
use dual_deployment_operator.Equivalence.Objects.{
  ObjectSet, find_object, put_object, key_of_object, put_all,
}
use dual_deployment_operator.Equivalence.Scope.{ExclusionEntry, names_entry}

pub record GoldenOpts : Type 0 where
  pub chart_fullname : String
  pub exclusions : List ExclusionEntry

pub record Classified : Type 0 where
  pub seed : ObjectSet
  pub shoot : ObjectSet

-- What the secrets of the managed resources give: the names that are referenced, and the objects.
pub record Unwrapped : Type 0 where
  pub referenced : List String
  pub from_mr : List Fields

abbrev pub nothing_unwrapped : Unwrapped
nothing_unwrapped = record { referenced = []; from_mr = [] }

abbrev pub with_message : String → Error → Error
with_message prefix e = record e { message = concat (prefix ∷ e.message ∷ []) }

-- Both results, or the first error.
abbrev pub join_unwrapped : Result Unwrapped → Result Unwrapped → Result Unwrapped
join_unwrapped (err e) r = err e
join_unwrapped (ok a) (err e) = err e
join_unwrapped (ok a) (ok b) =
    ok (record { referenced = a.referenced ++ b.referenced; from_mr = a.from_mr ++ b.from_mr })

module _ ⦃k : Library⦄ where
  unfoldable pub is_excluded : Fields → List ExclusionEntry → Bool
  is_excluded u ex = any (names_entry (k.get_kind u) (k.get_name u)) ex

  unfoldable pub is_managed_resource : Fields → Bool
  is_managed_resource u =
      k.get_kind u == "ManagedResource"
      && (k.group_version_kind u).group == "resources.gardener.cloud"

  abbrev pub only_webhooks : Result (Option Fields) → Bool
  only_webhooks (err e) = false
  only_webhooks (ok none) = false
  only_webhooks (ok (some m)) = nat_eq (size m) 1 && is_some (lookup "webhooks.yaml" m)

  unfoldable pub is_injector_config_map : Fields → String → Bool
  is_injector_config_map u fullname =
      k.get_kind u == "ConfigMap"
      && (k.get_name u == concat (fullname ∷ "-webhook-config" ∷ [])
          && only_webhooks (k.nested_map u ("data" ∷ [])))

  -- The loop over the decoded documents.
  unfoldable pub gather_docs : List (Result Fields) → Result (List Fields)
  gather_docs [] = ok []
  gather_docs (err e ∷ docs) = err (with_message "equivalence: decode YAML doc: " e)
  gather_docs (ok m ∷ docs) =
      let rest = gather_docs docs in if nat_eq (size m) 0 then rest else cons_ok m rest

  unfoldable pub split_yaml_docs : String → Result (List Fields)
  unfolding gather_docs
  split_yaml_docs b = gather_docs (k.decode_documents b)

  -- A missing value is the empty text.
  unfoldable pub decode_webhooks : Fields → Result (List Fields)
  decode_webhooks u = elim (k.nested_string u ("data" ∷ "webhooks.yaml" ∷ [])) [
    | err e ↦ err e
    | ok none ↦ split_yaml_docs ""
    | ok (some raw) ↦ split_yaml_docs raw
  ]

  -- The first loop: the objects that managed resources carry.
  unfoldable pub shoot_from : List Fields → List ExclusionEntry → ObjectSet → ObjectSet
  shoot_from [] ex shoot = shoot
  shoot_from (d ∷ docs) ex shoot =
      shoot_from docs ex (if is_excluded d ex then shoot else put_object (key_of_object d) d shoot)

  abbrev pub add_webhooks : Fields → Result (List Fields) → Classified → Result Classified
  add_webhooks d (err e) out = err (
      with_message
        (concat ("equivalence: unwrap injector ConfigMap " ∷ k.quote (k.get_name d) ∷ ": " ∷ [])) e)
  add_webhooks d (ok whs) out = ok (record out { shoot = put_all whs out.shoot })

  -- One pass of the second loop.
  unfoldable pub classify_doc : GoldenOpts → Fields → Classified → Result Classified
  classify_doc opts d out =
      if is_excluded d opts.exclusions
      then ok out
      else if is_managed_resource d
      then ok out
      else if is_injector_config_map d opts.chart_fullname
      then add_webhooks d (decode_webhooks d) out
      else ok (record out { seed = put_object (key_of_object d) d out.seed })

  unfoldable pub classify_docs : GoldenOpts → List Fields → Result Classified → Result Classified
  classify_docs opts docs (err e) = err e
  classify_docs opts [] (ok out) = ok out
  classify_docs opts (d ∷ docs) (ok out) = classify_docs opts docs (classify_doc opts d out)

  unfoldable pub classify_golden : List Fields → List Fields → GoldenOpts → Result Classified
  classify_golden docs shoot_from_mr opts =
      classify_docs opts docs
        (ok (record { seed = []; shoot = shoot_from shoot_from_mr opts.exclusions [] }))

  -- secretsByName: of two secrets with one name, the last one.
  unfoldable pub secrets_by_name : List Fields → ObjectSet → ObjectSet
  secrets_by_name [] secrets = secrets
  secrets_by_name (d ∷ docs) secrets =
      secrets_by_name docs
        (if k.get_kind d == "Secret" then put_object (k.get_name d) d secrets else secrets)

  abbrev pub mr_secret_error : String → String → String → Error
  mr_secret_error before name after =
      plain (concat ("equivalence: " ∷ before ∷ k.quote name ∷ after ∷ []))

  abbrev pub unwrap_objects : String → Result (List Fields) → Result Unwrapped
  unwrap_objects name (err e) =
      err (
        with_message (concat ("equivalence: split MR secret " ∷ k.quote name ∷ " payload: " ∷ []))
          e)
  unwrap_objects name (ok objs) = ok (record { referenced = name ∷ []; from_mr = objs })

  abbrev pub unwrap_payload : String → Result String → Result Unwrapped
  unwrap_payload name (err e) = err (
      with_message
        (concat ("equivalence: decode MR secret " ∷ k.quote name ∷ " objects.yaml: " ∷ [])) e)
  unwrap_payload name (ok raw) = unwrap_objects name (split_yaml_docs raw)

  module _ (decode_base64 : String → Result String) where
    unfoldable pub unwrap_encoded : String → Result (Option String) → Result Unwrapped
    unwrap_encoded name (err e) = err e
    unwrap_encoded name (ok none) =
        err (mr_secret_error "MR secret " name " has no non-empty data[objects.yaml]")
    unwrap_encoded name (ok (some enc)) =
        if enc == ""
        then err (mr_secret_error "MR secret " name " has no non-empty data[objects.yaml]")
        else unwrap_payload name (decode_base64 enc)

    unfoldable pub unwrap_secret : Fields → String → Option Fields → Result Unwrapped
    unwrap_secret mr name none = err (
        plain (
          concat (
            "equivalence: MR "
            ∷ k.quote (k.get_name mr)
            ∷ " references Secret "
            ∷ k.quote name
            ∷ " not found in render"
            ∷ [])))
    unwrap_secret mr name (some sec) =
        unwrap_encoded name (k.nested_string sec ("data" ∷ "objects.yaml" ∷ []))

    -- The loop over the references of one managed resource; one that is no map is skipped.
    unfoldable pub unwrap_refs : ObjectSet → Fields → Items → Result Unwrapped
    unwrap_refs secrets mr done = ok nothing_unwrapped
    unwrap_refs secrets mr (item (object m) refs) =
        let name = text_or_empty (lookup "name" m) in
        join_unwrapped (unwrap_secret mr name (find_object name secrets))
          (unwrap_refs secrets mr refs)
    unwrap_refs secrets mr (item v refs) = unwrap_refs secrets mr refs

    abbrev pub unwrap_listed : ObjectSet → Fields → Result (Option Items) → Result Unwrapped
    unwrap_listed secrets mr (err e) = err e
    unwrap_listed secrets mr (ok none) = ok nothing_unwrapped
    unwrap_listed secrets mr (ok (some refs)) = unwrap_refs secrets mr refs

    unfoldable pub unwrap_all : ObjectSet → List Fields → Result Unwrapped
    unwrap_all secrets [] = ok nothing_unwrapped
    unwrap_all secrets (d ∷ docs) =
        let rest = unwrap_all secrets docs in
        if is_managed_resource d
        then join_unwrapped
            (unwrap_listed secrets d (k.nested_slice d ("spec" ∷ "secretRefs" ∷ []))) rest
        else rest

  -- The last loop: what is neither a managed resource nor one of its secrets.
  unfoldable pub passes_through : List String → Fields → Bool
  passes_through referenced d =
      not (is_managed_resource d)
      && not (k.get_kind d == "Secret" && one_of referenced (k.get_name d))

  abbrev pub with_passthrough : List Fields → Result Unwrapped → Result (List Fields × List Fields)
  with_passthrough docs (err e) = err e
  with_passthrough docs (ok r) = ok (r.from_mr, keep (passes_through r.referenced) docs)

  unfoldable pub unwrap_managed_resources :
      (String → Result String) → List Fields → Result (List Fields × List Fields)
  unwrap_managed_resources decode_base64 docs =
      with_passthrough docs (unwrap_all decode_base64 (secrets_by_name docs []) docs)
