-- ===== src/Equivalence/Classify/Unwrapping.antt =====
-- What managed resources carry (UnwrapManagedResources in golden_classify.go).
use mathlib.Core.List.{append_assoc, append-nil}
use dual_deployment_operator.Base.{
  ◌≡◌, ◌≢◌, sym, refl, inl, inr, subst, ◌∙◌, ap, String, Option, none, some, List, [], ◌∷◌, ◌++◌,
  ◌==◌, arith, Bool-cases, Option-cases, Result, ok, err, Result-cases, if◌then◌else◌, eq_iff,
  Error,
}
use dual_deployment_operator.Json.{
  Fields, Items, done, item, object, nil, boolean, int64, float64, text, slice, lookup,
}
use dual_deployment_operator.Library.{Library}
use dual_deployment_operator.Transform.RewriteWebhookUrl.{text_or_empty}
use dual_deployment_operator.Equivalence.Objects.{ObjectSet, find_object}
use dual_deployment_operator.Equivalence.Classify.{
  Unwrapped, nothing_unwrapped, join_unwrapped, is_managed_resource, split_yaml_docs,
  unwrap_objects, unwrap_payload, unwrap_encoded, unwrap_secret, unwrap_refs, unwrap_listed,
  unwrap_all,
}

-- The names in a list of references; what is no map is passed over.
abbrev pub ref_names : Items → List String
ref_names done = []
ref_names (item (object m) refs) = text_or_empty (lookup "name" m) ∷ ref_names refs
ref_names (item v refs) = ref_names refs

abbrev pub names_of : Result (Option Items) → List String
names_of (err e) = []
names_of (ok none) = []
names_of (ok (some refs)) = ref_names refs

module _ ⦃k : Library⦄ where
  abbrev pub references : Fields → Result (Option Items)
  references d = k.nested_slice d ("spec" ∷ "secretRefs" ∷ [])

  -- The names that the managed resources refer to, in order.
  abbrev pub listed_names : List Fields → List String
  listed_names [] = []
  listed_names (d ∷ docs) =
      (if is_managed_resource d then names_of (references d) else []) ++ listed_names docs

  -- The objects that the Secrets of the names carry, one Secret after the other. A Secret's payload is
  -- not empty, and can be decoded.
  pub data Payloads (decode_base64 : String → Result String) (secret_of : String → Option Fields)
      : List String → List Fields → Type 0 where
    none_left : Payloads decode_base64 secret_of [] []
    payload :
        {names : List String} {here rest : List Fields} (name : String) (secret : Fields)
        (encoded raw : String)
        → secret_of name ≡ some secret
        → k.nested_string secret ("data" ∷ "objects.yaml" ∷ []) ≡ ok (some encoded)
        → encoded ≢ ""
        → decode_base64 encoded ≡ ok raw
        → split_yaml_docs raw ≡ ok here
        → Payloads decode_base64 secret_of names rest
        → Payloads decode_base64 secret_of (name ∷ names) (here ++ rest)

module _ ⦃k : Library⦄ (decode_base64 : String → Result String) (secrets : ObjectSet) where
  abbrev secret_of : String → Option Fields
  secret_of name = find_object name secrets

  Payloads-append :
      {xs ys : List String} {us vs : List Fields}
      → Payloads decode_base64 secret_of xs us
      → Payloads decode_base64 secret_of ys vs
      → Payloads decode_base64 secret_of (xs ++ ys) (us ++ vs)
  Payloads-append none_left q = q
  Payloads-append
        (payload {names} {here} {rest} name sec enc raw found stored filled decoded parsed p) q =
      subst (Payloads decode_base64 secret_of _) (sym (append_assoc here rest _))
        (payload name sec enc raw found stored filled decoded parsed (Payloads-append p q))

  -- The result has these names, and the payloads of their Secrets.
  pub record Unwraps (names : List String) (u : Unwrapped) : Type 0 where
    pub named : u.referenced ≡ names
    pub carried : Payloads decode_base64 secret_of names u.from_mr

  Unwraps-nothing : (u : Unwrapped) → ok nothing_unwrapped ≡ ok u → Unwraps [] u
  Unwraps-nothing u h =
      let e : nothing_unwrapped ≡ u = cc in
      subst (Unwraps []) e (record { named = refl; carried = none_left })

  Unwraps-join :
      (r s : Result Unwrapped) (w : Unwrapped) (xs ys : List String)
      → join_unwrapped r s ≡ ok w
      → ((u : Unwrapped) → r ≡ ok u → Unwraps xs u)
      → ((v : Unwrapped) → s ≡ ok v → Unwraps ys v)
      → Unwraps (xs ++ ys) w
  Unwraps-join (err e) s w xs ys h f g = cc
  Unwraps-join (ok u) (err e) w xs ys h f g = cc
  Unwraps-join (ok u) (ok v) w xs ys h f g =
      let both : Unwrapped = record {
        referenced = u.referenced ++ v.referenced;
        from_mr = u.from_mr ++ v.from_mr;
      } in
      let e : both ≡ w = cc in
      let first = f u refl in
      let second = g v refl in
      subst (Unwraps (xs ++ ys)) e (record {
        named = rw (first.named, second.named) refl;
        carried = Payloads-append first.carried second.carried;
      })

  unwrap_payload-objects :
      (name raw : String) (u : Unwrapped)
      → unwrap_payload name (ok raw) ≡ ok u
      → (objs : List Fields) × (split_yaml_docs raw ≡ ok objs)
        × (record { referenced = name ∷ []; from_mr = objs } ≡ u)
  unwrap_payload-objects name raw u h = elim (Result-cases (split_yaml_docs raw)) [
    | inl (e, p) ↦ absurd (err-ok e u (ap (unwrap_objects name) (sym p) ∙ h))
    | inr (objs, p) ↦ (objs, p, ok-injective (ap (unwrap_objects name) (sym p) ∙ h))
  ]
    where
      err-ok : (e : Error) (u : Unwrapped) → unwrap_objects name (err e) ≡ ok u → ⊥
      err-ok e u h' = cc

      ok-injective : {u v : Unwrapped} → ok u ≡ ok v → u ≡ v
      ok-injective h' = cc

  unwrap_encoded-Unwraps :
      (sec : Fields) (name : String) (u : Unwrapped) (stored : Result (Option String))
      → secret_of name ≡ some sec
      → k.nested_string sec ("data" ∷ "objects.yaml" ∷ []) ≡ stored
      → unwrap_encoded decode_base64 name stored ≡ ok u
      → Unwraps (name ∷ []) u
  unfolding unwrap_encoded
  unwrap_encoded-Unwraps sec name u (err e) found e' h = cc
  unwrap_encoded-Unwraps sec name u (ok none) found e' h = cc
  unwrap_encoded-Unwraps sec name u (ok (some enc)) found e' h = elim (Bool-cases (enc == "")) [
    | inl empty ↦ absurd (ground arith)
    | inr filled ↦ elim (Result-cases (decode_base64 enc)) [
      | inl (e, p) ↦ absurd (ground arith)
      | inr (raw, p) ↦
          (let (objs, parsed, shape) = unwrap_payload-objects name raw u (ground arith) in
            subst (Unwraps (name ∷ [])) shape (record {
              named = refl;
              carried = subst (Payloads decode_base64 secret_of (name ∷ [])) (append-nil objs) (
                  payload name sec enc raw found e' (ground (arith, eq_iff enc "")) p parsed
                    none_left);
            }))
    ]
  ]

  unwrap_secret-Unwraps :
      (mr : Fields) (name : String) (u : Unwrapped)
      → unwrap_secret decode_base64 mr name (secret_of name) ≡ ok u
      → Unwraps (name ∷ []) u
  unfolding unwrap_secret
  unwrap_secret-Unwraps mr name u h = elim (Option-cases (secret_of name)) [
    | inl e ↦ absurd (ground arith)
    | inr (sec, e) ↦
        unwrap_encoded-Unwraps sec name u (k.nested_string sec ("data" ∷ "objects.yaml" ∷ [])) e
          refl (ground arith)
  ]

  unwrap_refs-Unwraps :
      (mr : Fields) (refs : Items) (u : Unwrapped)
      → unwrap_refs decode_base64 secrets mr refs ≡ ok u
      → Unwraps (ref_names refs) u
  unfolding unwrap_refs
  unwrap_refs-Unwraps mr done u h = Unwraps-nothing u h
  unwrap_refs-Unwraps mr (item (object m) refs) u h =
      let name = text_or_empty (lookup "name" m) in
      Unwraps-join (unwrap_secret decode_base64 mr name (secret_of name))
        (unwrap_refs decode_base64 secrets mr refs) u (name ∷ []) (ref_names refs) h
        (λ v e. unwrap_secret-Unwraps mr name v e) (λ v e. unwrap_refs-Unwraps mr refs v e)
  unwrap_refs-Unwraps mr (item nil refs) u h = unwrap_refs-Unwraps mr refs u h
  unwrap_refs-Unwraps mr (item (boolean b) refs) u h = unwrap_refs-Unwraps mr refs u h
  unwrap_refs-Unwraps mr (item (int64 i) refs) u h = unwrap_refs-Unwraps mr refs u h
  unwrap_refs-Unwraps mr (item (float64 t) refs) u h = unwrap_refs-Unwraps mr refs u h
  unwrap_refs-Unwraps mr (item (text t) refs) u h = unwrap_refs-Unwraps mr refs u h
  unwrap_refs-Unwraps mr (item (slice vs) refs) u h = unwrap_refs-Unwraps mr refs u h

  unwrap_listed-Unwraps :
      (mr : Fields) (listed : Result (Option Items)) (u : Unwrapped)
      → unwrap_listed decode_base64 secrets mr listed ≡ ok u
      → Unwraps (names_of listed) u
  unwrap_listed-Unwraps mr (err e) u h = cc
  unwrap_listed-Unwraps mr (ok none) u h = Unwraps-nothing u h
  unwrap_listed-Unwraps mr (ok (some refs)) u h = unwrap_refs-Unwraps mr refs u h

  pub unwrap_all-Unwraps :
      (docs : List Fields) (u : Unwrapped)
      → unwrap_all decode_base64 secrets docs ≡ ok u
      → Unwraps (listed_names docs) u
  unfolding unwrap_all
  unwrap_all-Unwraps [] u h = Unwraps-nothing u h
  unwrap_all-Unwraps (d ∷ docs) u h = elim (Bool-cases (is_managed_resource d)) [
    | inl e ↦ rw e (
        Unwraps-join (unwrap_listed decode_base64 secrets d (references d))
          (unwrap_all decode_base64 secrets docs) u (names_of (references d)) (listed_names docs)
          (ground arith) (λ v e'. unwrap_listed-Unwraps d (references d) v e')
          (λ v e'. unwrap_all-Unwraps docs v e'))
    | inr e ↦ rw e (unwrap_all-Unwraps docs u (ground arith))
  ]
