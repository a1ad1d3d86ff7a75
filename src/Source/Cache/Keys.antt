-- ===== src/Source/Cache/Keys.antt =====
-- The parts of a cache key (cachekey.go).
use Prim.Native.String.{String, char_at}
use Prim.Native.Char.{Char}
use dual_deployment_operator.Base.{◌≡◌, sym, ap, ◌∙◌, List, [], ◌∷◌, All, split}
use dual_deployment_operator.Base.Pieces.{Free, split-join}
use dual_deployment_operator.Source.Cache.{KeyParts, key_string}

abbrev bar : Char
bar = char_at "|" 0

abbrev pub key_parts : KeyParts → List String
key_parts k =
    k.source_kind ∷ k.repo_scope ∷ k.resolved_id ∷ k.mode ∷ k.input_hash ∷ k.namespace ∷ []

-- Key parts without a bar in them.
abbrev pub IsKeyable : KeyParts → Type 0
IsKeyable k = All (Free b'|') (key_parts k)

-- A key that is made of six parts.
abbrev from_parts : KeyParts → List String → KeyParts
from_parts other (a ∷ b ∷ c ∷ d ∷ e ∷ f ∷ []) = record {
  source_kind = a;
  repo_scope = b;
  resolved_id = c;
  mode = d;
  input_hash = e;
  namespace = f;
}
from_parts other parts = other

split-key_string : (k : KeyParts) → IsKeyable k → split b'|' (key_string k) ≡ key_parts k
unfolding key_string
split-key_string k h =
    split-join bar k.source_kind
      (k.repo_scope ∷ k.resolved_id ∷ k.mode ∷ k.input_hash ∷ k.namespace ∷ []) h.0 h.1

-- If no part of two keys has a bar in it and the keys are written alike, then they have the same kind
-- of source, scope, content id, mode, hash of the inputs and namespace.
pub key_string_injective :
    (k l : KeyParts) → IsKeyable k → IsKeyable l → key_string k ≡ key_string l → k ≡ l
key_string_injective k l hk hl e =
    let parts : key_parts k ≡ key_parts l =
      sym (split-key_string k hk) ∙ (ap (λ (t : String). split b'|' t) e ∙ split-key_string l hl) in
    ap (from_parts k) parts
