-- ===== src/Source/Git/Calls.antt =====
-- The calls that fetching a kustomize root and resolving its ref make.
use dual_deployment_operator.Base.{
  or_return, String, Option, none, some, List, [], ◌∷◌, Error, Result, ok, err, concat, M, pure,
  ◌>>=◌, Keeps, Keeps-pure, Keeps-if, Keeps-bind, Keeps-chain, Keeps-checked, Keeps-wrapping,
}
use dual_deployment_operator.Library.{Library}
use dual_deployment_operator.Source.Url.{UrlLibrary, Resolve, host_of}
use dual_deployment_operator.Source.Git.{
  GitLibrary, Auth, SplitRef, split_ref, auth_for, auth_of, is_sha, fetch_sha, fail_closed,
  clone_one_of, fetch_pinned, or_clean_up, fetch_root, resolve_split, resolve_root, list_commit,
  commit_of, resolve_commit,
}

-- The calls of go-git and of the file system keep `P`.
pub record GitKeeps {S Repo Remote Worktree : Type 0} (P : S → Type 0)
    (git : GitLibrary S Repo Remote Worktree) : Type 0 where
  pub mkdir_temp : (pattern : String) → Keeps P (git.mkdir_temp pattern)
  pub remove_all : (dir : String) → Keeps P (git.remove_all dir)
  pub clone :
      (dir url : String) (auth : Auth) (name : String) → Keeps P (git.clone dir url auth name)
  pub init : (dir : String) → Keeps P (git.init dir)
  pub create_remote : (repo : Repo) (url : String) → Keeps P (git.create_remote repo url)
  pub fetch : (remote : Remote) (auth : Auth) → Keeps P (git.fetch remote auth)
  pub worktree : (repo : Repo) → Keeps P (git.worktree repo)
  pub checkout : (w : Worktree) (sha : String) → Keeps P (git.checkout w sha)
  pub list_refs : (url : String) (auth : Auth) → Keeps P (git.list_refs url auth)

-- The credential resolver keeps `P`, if there is one.
abbrev pub ResolveKeeps : {S : Type 0} → (S → Type 0) → Resolve S → Type 0
ResolveKeeps P none = Unit
ResolveKeeps P (some resolve) = (host : String) → Keeps P (resolve host)

module _ {S Url : Type 0} (P : S → Type 0) (urls : UrlLibrary Url) where
  auth_for-Keeps :
      (resolve : Resolve S) (base : String)
      → ResolveKeeps P resolve
      → Keeps P (auth_for urls resolve base)
  unfolding auth_for
  auth_for-Keeps none base h = Keeps-pure _
  auth_for-Keeps (some resolve) base h =
      Keeps-chain (resolve (host_of urls base)) _ (h _) λ c. Keeps-pure (ok (auth_of c))

module _ {S Repo Remote Worktree : Type 0} (P : S → Type 0)
    (git : GitLibrary S Repo Remote Worktree) (keeps : GitKeeps P git) ⦃k : Library⦄ where
  fail_closed-Keeps :
      {A : Type 0} (prefix : String) (m : M S (Result A))
      → Keeps P m
      → Keeps P (fail_closed prefix m)
  fail_closed-Keeps prefix m h = record { at = h.at }

  fetch_sha-Keeps :
      (dir base sha : String) (auth : Auth) → Keeps P (fetch_sha git dir base sha auth)
  unfolding fetch_sha
  fetch_sha-Keeps dir base sha auth = Keeps-chain _ _ (keeps.init dir) λ repo.
      Keeps-chain _ _ (keeps.create_remote repo base) λ remote.
        Keeps-chain _ _ (fail_closed-Keeps _ _ (Keeps-checked _ (keeps.fetch remote auth))) λ _.
          Keeps-chain _ _ (keeps.worktree repo)
            λ w. fail_closed-Keeps _ _ (Keeps-checked _ (keeps.checkout w sha))

  clone_one_of-Keeps :
      (dir base ref : String) (auth : Auth) (names : List String)
      → Keeps P (clone_one_of git dir base ref auth names)
  unfolding clone_one_of
  clone_one_of-Keeps dir base ref auth [] = Keeps-pure _
  clone_one_of-Keeps dir base ref auth (name ∷ names) =
      Keeps-bind _ _ (keeps.clone dir base auth name)
        (tried (clone_one_of-Keeps dir base ref auth names))
    where
      tried :
          Keeps P (clone_one_of git dir base ref auth names)
          → (failed : Option Error)
          → Keeps P (elim failed [
            | none ↦ pure (ok tt)
            | some e ↦ clone_one_of git dir base ref auth names
          ])
      tried rest none = record { at = λ s p. p }
      tried rest (some e) = rest

  fetch_pinned-Keeps :
      (dir base ref : String) (auth : Auth) → Keeps P (fetch_pinned git dir base ref auth)
  unfolding fetch_pinned
  fetch_pinned-Keeps dir base ref auth =
      Keeps-if (is_sha ref) _ _ (λ _. fetch_sha-Keeps dir base ref auth)
        (λ _.
          clone_one_of-Keeps dir base ref auth
            (concat ("refs/tags/" ∷ ref ∷ []) ∷ concat ("refs/heads/" ∷ ref ∷ []) ∷ []))

-- The clean-up of a root that was fetched keeps `P`.
abbrev pub CleanUpKeeps : {S : Type 0} → (S → Type 0) → Result (String × M S (Unit {0})) → Type 0
CleanUpKeeps P (err e) = Unit
CleanUpKeeps P (ok (path, cleanup)) = Keeps P cleanup

module _ {S Repo Remote Worktree Url : Type 0} (P : S → Type 0)
    (git : GitLibrary S Repo Remote Worktree) (keeps : GitKeeps P git) (urls : UrlLibrary Url)
    ⦃k : Library⦄ (resolve : Resolve S) (credentials : ResolveKeeps P resolve) where
  fetch_root-Keeps :
      (sub_path : String) (s : SplitRef) (dir : String)
      → Keeps P (fetch_root git urls resolve sub_path s dir)
  unfolding fetch_root
  fetch_root-Keeps sub_path s dir =
      Keeps-chain _ _ (Keeps-wrapping _ _ (auth_for-Keeps P urls resolve s.clone_url credentials))
        λ auth.
          Keeps-chain _ _ (fetch_pinned-Keeps P git keeps dir s.clone_url s.ref auth)
            λ _. Keeps-pure (ok (urls.join_path (dir ∷ s.root_sub_path ∷ sub_path ∷ [])))

  or_clean_up-kept :
      (dir : String) (r : Result String) (s : S)
      → P s
      → P (or_clean_up git dir r s).1 × CleanUpKeeps P (or_clean_up git dir r s).0
  unfolding or_clean_up
  or_clean_up-kept dir (err e) s p = ((keeps.remove_all dir).at s p, tt)
  or_clean_up-kept dir (ok path) s p = (p, keeps.remove_all dir)

  resolve_in :
      (sub_path : String) (split : SplitRef) (made : Result String) (s : S)
      → P s
      → let x =
          or_return
            (λ dir. fetch_root git urls resolve sub_path split dir >>= or_clean_up git dir)
            made
            s in
        P x.1 × CleanUpKeeps P x.0
  resolve_in sub_path split (err e) s p = (p, tt)
  resolve_in sub_path split (ok dir) s p =
      or_clean_up-kept dir _ _ ((fetch_root-Keeps sub_path split dir).at s p)

  pub resolve_root-kept :
      (raw sub_path : String) (s : S)
      → P s
      → P (resolve_root git urls resolve raw sub_path s).1
        × CleanUpKeeps P (resolve_root git urls resolve raw sub_path s).0
  unfolding resolve_root resolve_split
  resolve_root-kept raw sub_path s p = from (split_ref urls raw)
    where
      from :
          (split : Result SplitRef)
          → P (resolve_split git urls resolve sub_path split s).1
            × CleanUpKeeps P (resolve_split git urls resolve sub_path split s).0
      from (err e) = (p, tt)
      from (ok split) =
          resolve_in sub_path split (git.mkdir_temp "ddo-kustomize-" s).0 _
            ((keeps.mkdir_temp "ddo-kustomize-").at s p)

  list_commit-Keeps : (s : SplitRef) → Keeps P (list_commit git urls resolve s)
  unfolding list_commit
  list_commit-Keeps s =
      Keeps-chain _ _ (Keeps-wrapping _ _ (auth_for-Keeps P urls resolve s.clone_url credentials))
        λ auth.
          Keeps-chain _ _ (Keeps-wrapping _ _ (keeps.list_refs s.clone_url auth))
            λ refs. Keeps-pure _

  pub resolve_commit-Keeps : (raw : String) → Keeps P (resolve_commit git urls resolve raw)
  unfolding resolve_commit commit_of
  resolve_commit-Keeps raw = from (split_ref urls raw)
    where
      from : (split : Result SplitRef) → Keeps P (commit_of git urls resolve split)
      from (err e) = Keeps-pure _
      from (ok s) = Keeps-if (is_sha s.ref) _ _ (λ _. Keeps-pure _) (λ _. list_commit-Keeps s)
