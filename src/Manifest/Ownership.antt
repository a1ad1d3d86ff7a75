-- ===== src/Manifest/Ownership.antt =====
-- The value of the ownership label (OwnedByValue in manifest.go).
use Prim.Native.Char.{Char, len_utf8}
use Prim.Native.Nat.{compare, Ordering}
use Prim.Native.String.{String, len, slice, fits}
use Prim.Native.String.len
use Prim.Native.String.slice
use dual_deployment_operator.Base.{
  ℕ, zero, ◌-◌, ◌≤◌, ◌≡◌, refl, sym, subst, ap, ◌∙◌, arith, [], ◌∷◌, concat, Bool, if◌then◌else◌,
  eq_refl,
}
use dual_deployment_operator.Json.{get_text, put_text, get_text-put_text}
use dual_deployment_operator.Library.{Library, Documented, entries}
use dual_deployment_operator.Manifest.{Manifest, owned_by_label, owned_by_value, set_owned_by_label}

-- One more character, if it fits.
fits-bound :
    (c : Char) (rest : String) (n : ℕ) (o : Ordering)
    → compare (len_utf8 c) n ≡ o
    → len rest ≤ n - len_utf8 c
    → len (fits o c rest) ≤ n
fits-bound c rest n Ordering.lt e h = ground (arith, len.cons c rest)
fits-bound c rest n Ordering.eq e h = ground (arith, len.cons c rest)
fits-bound c rest n Ordering.gt e h = ground (arith, len.nil)

len-slice : (s : String) (n : ℕ) → len (slice s zero n) ≤ n
len-slice String.[] n = rw (slice.nil zero n, len.nil) (omega arith)
len-slice (String.◌∷◌ c s) n = rw (slice.cons-zero c s n) (
    fits-bound c (slice s zero (n - len_utf8 c)) n (compare (len_utf8 c) n) refl
      (len-slice s (n - len_utf8 c)))

module _ ⦃k : Library⦄ where
  len-owned_by_value : (namespace name : String) → len (owned_by_value namespace name) ≤ 16
  unfolding owned_by_value
  len-owned_by_value namespace name =
      len-slice (k.sha256_hex (concat (namespace ∷ "/" ∷ name ∷ []))) 16

  -- The ownership label that an object carries.
  abbrev pub owner_label : Manifest → String
  owner_label m = get_text owned_by_label (entries (k.get_labels m.unstructured))

  -- If the library behaves as documented, an object that is labelled for a custom resource carries the
  -- value of its namespace and name as its ownership label, and this value has at most 16 bytes,
  -- however long the namespace and the name are, and whatever the hash gives.
  pub set_owned_by_label-bound :
      (doc : Documented) (m : Manifest) (namespace name : String)
      → (owner_label (set_owned_by_label m (owned_by_value namespace name))
          ≡ owned_by_value namespace name)
        × (len (owner_label (set_owned_by_label m (owned_by_value namespace name))) ≤ 16)
  unfolding set_owned_by_label
  set_owned_by_label-bound doc m namespace name =
      let value = owned_by_value namespace name in
      let labels = entries (k.get_labels m.unstructured) in
      let label : owner_label (set_owned_by_label m value) ≡ value =
        ap (get_text owned_by_label)
          (doc.labels_set (put_text owned_by_label value labels) m.unstructured)
        ∙ (get_text-put_text owned_by_label owned_by_label value labels
            ∙ ap (λ (b : Bool). if b then value else get_text owned_by_label labels)
                (eq_refl owned_by_label)) in
      (label, subst (λ (t : String). len t ≤ 16) (sym label) (len-owned_by_value namespace name))
