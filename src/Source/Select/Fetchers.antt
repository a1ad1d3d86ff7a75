-- ===== src/Source/Select/Fetchers.antt =====
-- The calls of the fetchers that a source is made with, and of its reads of Secrets.
use dual_deployment_operator.Base.{
  String, Option, none, some, Keeps, Keeps-pure, Keeps-if, Keeps-bind, ◌==◌,
}
use dual_deployment_operator.Api.{SecretReference}
use dual_deployment_operator.Source.Credentials.{
  CredentialResolver, resolve_named, resolve_credentials, creds_of,
}
use dual_deployment_operator.Source.Git.Calls.{ResolveKeeps, CleanUpKeeps}
use dual_deployment_operator.Source.Select.{
  ChartLoader, helm_loader, other_loader, RootResolver, git_resolver, other_resolver,
  with_helm_creds, with_git_creds,
}

abbrev pub SecretsKeep : {S : Type 0} → (S → Type 0) → Option (CredentialResolver S) → Type 0
SecretsKeep P none = Unit
SecretsKeep P (some cr) = (namespace name : String) → Keeps P (cr.get_secret namespace name)

abbrev pub LoaderKeeps : {S H Chart : Type 0} → (S → Type 0) → ChartLoader S H Chart → Type 0
LoaderKeeps P (helm_loader l) = ResolveKeeps P l.resolve
LoaderKeeps P (other_loader load) = (repo name version : String) → Keeps P (load repo name version)

abbrev pub RootKeeps : {S : Type 0} → (S → Type 0) → RootResolver S → Type 0
RootKeeps P (git_resolver resolve) = ResolveKeeps P resolve
RootKeeps {S} P (other_resolver resolve) =
    (url path : String) (s : S)
    → P s
    → P (resolve url path s).1 × CleanUpKeeps P (resolve url path s).0

module _ {S : Type 0} (P : S → Type 0) where
  resolve_credentials-Keeps :
      (cr : CredentialResolver S) (ref : Option SecretReference)
      → SecretsKeep P (some cr)
      → Keeps P (resolve_credentials cr ref)
  unfolding resolve_credentials resolve_named
  resolve_credentials-Keeps cr none h = Keeps-pure _
  resolve_credentials-Keeps cr (some ref) h =
      Keeps-if (ref.name == "") _ _ (λ _. Keeps-pure _)
        λ _. Keeps-bind _ _ (h cr.namespace ref.name) λ got. Keeps-pure (creds_of got)

  pub with_git_creds-RootKeeps :
      (rr : RootResolver S) (cr : Option (CredentialResolver S)) (ref : Option SecretReference)
      → RootKeeps P rr
      → SecretsKeep P cr
      → RootKeeps P (with_git_creds rr cr ref)
  unfolding with_git_creds
  with_git_creds-RootKeeps (git_resolver resolve) none ref h secrets = h
  with_git_creds-RootKeeps (git_resolver resolve) (some cr) ref h secrets =
      λ host. resolve_credentials-Keeps cr ref secrets
  with_git_creds-RootKeeps (other_resolver resolve) none ref h secrets = h
  with_git_creds-RootKeeps (other_resolver resolve) (some cr) ref h secrets = h

module _ {S H Chart : Type 0} (P : S → Type 0) where
  pub with_helm_creds-LoaderKeeps :
      (cl : ChartLoader S H Chart) (cr : Option (CredentialResolver S))
      (ref : Option SecretReference)
      → LoaderKeeps P cl
      → SecretsKeep P cr
      → LoaderKeeps P (with_helm_creds cl cr ref)
  unfolding with_helm_creds
  with_helm_creds-LoaderKeeps (helm_loader l) none ref h secrets = h
  with_helm_creds-LoaderKeeps (helm_loader l) (some cr) ref h secrets =
      λ host. resolve_credentials-Keeps P cr ref secrets
  with_helm_creds-LoaderKeeps (other_loader load) none ref h secrets = h
  with_helm_creds-LoaderKeeps (other_loader load) (some cr) ref h secrets = h
