-- ===== src/Manifest/Documents.antt =====
-- What the reading of a rendered stream accepts.
use dual_deployment_operator.Base.{
  ℕ, ◌+◌, ◌≡◌, refl, ◌≢◌, String, List, [], ◌∷◌, arith, Result, ok, err, cons_ok, cons_ok-eq-ok,
  subst, sym, All, Bool-cases, inl, inr, eq_iff, nat_eq, ap, keep, not, map, ◌⊎◌, ◌==◌, true, false,
}
use dual_deployment_operator.Json.{Fields, size, get_text}
use dual_deployment_operator.Library.{Library, entries}
use dual_deployment_operator.Manifest.{Manifest, origin_of, parse_documents, parse}

-- The documents with any field at all.
abbrev pub not_empty_documents : List Fields → List Fields
not_empty_documents docs = keep (λ u. not (nat_eq (size u) 0)) docs

abbrev pub objects_of : List Manifest → List Fields
objects_of ms = map (λ m. m.unstructured) ms

module _ ⦃k : Library⦄ where
  abbrev pub annotated_origin : Fields → String
  annotated_origin u =
      get_text "dual-deployment-operator.cc.sap/origin" (entries (k.get_annotations u))

  -- A manifest that the operator goes on with.
  pub record IsComplete (fallback : String) (m : Manifest) : Type 0 where
    pub has_version : k.get_api_version m.unstructured ≢ ""
    pub has_kind : k.get_kind m.unstructured ≢ ""
    pub has_origin :
        ((annotated_origin m.unstructured ≡ "additions") × (m.origin ≡ "additions"))
        ⊎ ((annotated_origin m.unstructured ≢ "additions") × (m.origin ≡ fallback))

  -- What is read from decoded documents.
  pub record IsRead (fallback : String) (decoded : List (Result Fields)) (ms : List Manifest)
      : Type 0 where
    pub docs : List Fields
    pub all_decoded : decoded ≡ map ok docs
    pub in_order : objects_of ms ≡ not_empty_documents docs
    pub complete : All (IsComplete fallback) ms

  abbrev read_as : Fields → String → Manifest
  read_as obj fallback = record { unstructured = obj; origin = origin_of obj fallback }

  read_as-IsComplete :
      (obj : Fields) (fallback : String)
      → k.get_api_version obj ≢ ""
      → k.get_kind obj ≢ ""
      → IsComplete fallback (read_as obj fallback)
  unfolding origin_of
  read_as-IsComplete obj fallback version kind = record {
    has_version = version;
    has_kind = kind;
    has_origin = elim (Bool-cases (annotated_origin obj == "additions")) [
      | inl e ↦ inl ((eq_iff (annotated_origin obj) "additions").0 e, ground arith)
      | inr e ↦ inr (ground (arith, eq_iff (annotated_origin obj) "additions"), ground arith)
    ];
  }

  -- A document that is read goes first.
  IsRead-first :
      (obj : Fields) (fallback : String) (decoded : List (Result Fields))
      (rest : Result (List Manifest)) (ms : List Manifest)
      → nat_eq (size obj) 0 ≡ false
      → k.get_api_version obj ≢ ""
      → k.get_kind obj ≢ ""
      → cons_ok (read_as obj fallback) rest ≡ ok ms
      → ((ms' : List Manifest) → rest ≡ ok ms' → IsRead fallback decoded ms')
      → IsRead fallback (ok obj ∷ decoded) ms
  IsRead-first obj fallback decoded rest ms filled version kind h others =
      let (ms', rest_ok, shape) = cons_ok-eq-ok (read_as obj fallback) rest ms h in
      let tail = others ms' rest_ok in
      subst (IsRead fallback (ok obj ∷ decoded)) (sym shape) (record {
        docs = obj ∷ tail.docs;
        all_decoded = ap (λ ds. ok obj ∷ ds) tail.all_decoded;
        in_order = rw filled (ap (λ us. obj ∷ us) tail.in_order);
        complete = (read_as-IsComplete obj fallback version kind, tail.complete);
      })

  IsRead-empty :
      (obj : Fields) (fallback : String) (decoded : List (Result Fields)) (ms : List Manifest)
      → nat_eq (size obj) 0 ≡ true
      → IsRead fallback decoded ms
      → IsRead fallback (ok obj ∷ decoded) ms
  IsRead-empty obj fallback decoded ms empty tail = record {
    docs = obj ∷ tail.docs;
    all_decoded = ap (λ ds. ok obj ∷ ds) tail.all_decoded;
    in_order = rw empty tail.in_order;
    complete = tail.complete;
  }

  parse_documents-IsRead :
      (docs : List (Result Fields)) (idx : ℕ) (fallback : String) (ms : List Manifest)
      → parse_documents docs idx fallback ≡ ok ms
      → IsRead fallback docs ms
  unfolding parse_documents
  parse_documents-IsRead [] idx fallback [] h = record {
    docs = [];
    all_decoded = refl;
    in_order = refl;
    complete = tt;
  }
  parse_documents-IsRead [] idx fallback (m ∷ ms) h = cc
  parse_documents-IsRead (err e ∷ docs) idx fallback ms h = cc
  parse_documents-IsRead (ok obj ∷ docs) idx fallback ms h =
      let others = λ (ms' : List Manifest) (e : parse_documents docs (idx + 1) fallback ≡ ok ms').
        parse_documents-IsRead docs (idx + 1) fallback ms' e in
      elim (Bool-cases (nat_eq (size obj) 0)) [
        | inl e ↦ IsRead-empty obj fallback docs ms e (others ms (ground arith))
        | inr e ↦
            (let read : (k.get_api_version obj ≢ "")
                  × (k.get_kind obj ≢ "")
                  × (cons_ok (read_as obj fallback) (parse_documents docs (idx + 1) fallback)
                      ≡ ok ms) =
                ground (arith, eq_iff (k.get_api_version obj) "", eq_iff (k.get_kind obj) "") in
              IsRead-first obj fallback docs (parse_documents docs (idx + 1) fallback) ms e read.0
                read.1 read.2 others)
      ]

  -- If a stream is accepted, all its documents could be decoded, and the manifests are those of the
  -- documents that are not empty, in order. Each has an apiVersion and a kind, and its origin is
  -- "additions" if its annotation says so, and the caller's otherwise.
  pub parse-IsRead :
      (raw fallback : String) (ms : List Manifest)
      → parse raw fallback ≡ ok ms
      → IsRead fallback (k.decode_documents raw) ms
  unfolding parse
  parse-IsRead raw fallback ms h = parse_documents-IsRead (k.decode_documents raw) 0 fallback ms h
