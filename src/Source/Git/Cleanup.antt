-- ===== src/Source/Git/Cleanup.antt =====
-- The directory that a root is fetched to (Resolve in gitresolver.go).
use dual_deployment_operator.Base.{
  String, ◌≡◌, refl, ap, ◌⊎◌, inl, inr, Error, Result, ok, err, M, ◌>>=◌, or_return,
}
use dual_deployment_operator.Library.{Library}
use dual_deployment_operator.Source.Url.{UrlLibrary, Resolve}
use dual_deployment_operator.Source.Git.{
  GitLibrary, SplitRef, split_ref, or_clean_up, fetch_root, resolve_split, resolve_root,
}

module _ {S Repo Remote Worktree Url : Type 0} (git : GitLibrary S Repo Remote Worktree)
    (urls : UrlLibrary Url) ⦃k : Library⦄ where
  -- A directory that was created in a world, and that is removed last.
  pub record IsRemovedLast (world after : S) : Type 0 where
    pub dir : String
    pub before : S
    pub created : (git.mkdir_temp "ddo-kustomize-" world).0 ≡ ok dir
    pub removed : after ≡ (git.remove_all dir before).1

  abbrev pub FailsToCreate : S → S → Type 0
  FailsToCreate world after = (e : Error) × (git.mkdir_temp "ddo-kustomize-" world ≡ (err e, after))

  -- After a failure nothing has been created, or the directory has been removed last. After a
  -- success the caller is given the removal of the directory.
  abbrev pub IsCleanedUp : S → Result (String × M S (Unit {0})) × S → Type 0
  IsCleanedUp world (err e, after) =
      (after ≡ world) ⊎ (FailsToCreate world after ⊎ IsRemovedLast world after)
  IsCleanedUp world (ok (path, cleanup), after) =
      (dir : String) × ((git.mkdir_temp "ddo-kustomize-" world).0 ≡ ok dir)
      × (cleanup ≡ git.remove_all dir)

  or_clean_up-IsCleanedUp :
      (world : S) (dir : String) (r : Result String) (s : S)
      → (git.mkdir_temp "ddo-kustomize-" world).0 ≡ ok dir
      → IsCleanedUp world (or_clean_up git dir r s)
  unfolding or_clean_up
  or_clean_up-IsCleanedUp world dir (err e) s created =
      inr (inr (record { dir = dir; before = s; created = created; removed = refl }))
  or_clean_up-IsCleanedUp world dir (ok path) s created = (dir, created, refl)

  resolve_split-IsCleanedUp :
      (resolve : Resolve S) (sub_path : String) (split : Result SplitRef) (world : S)
      → IsCleanedUp world (resolve_split git urls resolve sub_path split world)
  unfolding resolve_split
  resolve_split-IsCleanedUp resolve sub_path (err e) world = inl refl
  resolve_split-IsCleanedUp resolve sub_path (ok s) world =
      go (git.mkdir_temp "ddo-kustomize-" world) refl
    where
      go :
          (made : Result String × S)
          → git.mkdir_temp "ddo-kustomize-" world ≡ made
          → IsCleanedUp world (
              or_return
                (λ dir. fetch_root git urls resolve sub_path s dir >>= or_clean_up git dir)
                made.0
                made.1)
      go (err e, after) p = inr (inl (e, p))
      go (ok dir, after) p =
          let fetched = fetch_root git urls resolve sub_path s dir after in
          or_clean_up-IsCleanedUp world dir fetched.0 fetched.1
            (ap (λ (r : Result String × S). r.0) p)

  -- However the fetch of a root ends, its directory does not stay behind: after a failure nothing has
  -- been created, or the directory that was created is removed last, and after a success the
  -- clean-up that the caller is given is the removal of this directory.
  pub resolve_root-IsCleanedUp :
      (resolve : Resolve S) (raw sub_path : String) (world : S)
      → IsCleanedUp world (resolve_root git urls resolve raw sub_path world)
  unfolding resolve_root
  resolve_root-IsCleanedUp resolve raw sub_path world =
      resolve_split-IsCleanedUp resolve sub_path (split_ref urls raw) world
