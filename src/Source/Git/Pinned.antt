-- ===== src/Source/Git/Pinned.antt =====
-- URLs that the git resolver refuses (splitRef in gitresolver.go).
use dual_deployment_operator.Base.{
  String, ◌≡◌, refl, ap, ◌∙◌, Bool, true, false, ◌⊎◌, inl, inr, Error, Result, ok, err, arith, ◌==◌,
  eq_iff, if◌then◌else◌,
}
use dual_deployment_operator.Library.{Library}
use dual_deployment_operator.Source.Url.{UrlLibrary, Resolve}
use dual_deployment_operator.Source.Git.{
  GitLibrary, SplitRef, split_parsed, split_ref, git_repo_scope, git_scope_of, resolve_split,
  resolve_root, commit_of, resolve_commit,
}

-- If one of two guards holds, the result is an error.
one_fails :
    {A : Type 0} (b c : Bool) (x y : Error) (r : Result A)
    → (b ≡ true) ⊎ (c ≡ true)
    → (e : Error) × ((if b then err x else if c then err y else r) ≡ err e)
one_fails true c x y r h = (x, refl)
one_fails false true x y r h = (y, refl)
one_fails false false x y r (inl h) = cc
one_fails false false x y r (inr h) = cc

module _ {Url : Type 0} (urls : UrlLibrary Url) where
  split_parsed-refused :
      (u : Url)
      → (urls.has_user u ≡ true) ⊎ (urls.query "ref" u ≡ "")
      → (e : Error) × (split_parsed urls (ok u) ≡ err e)
  unfolding split_parsed
  split_parsed-refused u h =
      one_fails (urls.has_user u) (urls.query "ref" u == "") _ _ _
        (elim h [ inl e ↦ inl e | inr e ↦ inr (ground (arith, eq_iff (urls.query "ref" u) "")) ])

  split_ref-refused :
      (raw : String) (u : Url)
      → urls.parse raw ≡ ok u
      → (urls.has_user u ≡ true) ⊎ (urls.query "ref" u ≡ "")
      → (e : Error) × (split_ref urls raw ≡ err e)
  unfolding split_ref
  split_ref-refused raw u parsed h =
      let (e, p) = split_parsed-refused u h in (e, ap (split_parsed urls) parsed ∙ p)

module _ {S Repo Remote Worktree Url : Type 0} (git : GitLibrary S Repo Remote Worktree)
    (urls : UrlLibrary Url) ⦃k : Library⦄ where
  -- A URL that embeds credentials or that has no ref is refused by the fetch, by the resolution of
  -- the commit and by the scope alike, before anything is fetched: the world stays as it is.
  pub resolve_root_unpinned :
      (resolve : Resolve S) (raw sub_path : String) (u : Url) (s : S)
      → urls.parse raw ≡ ok u
      → (urls.has_user u ≡ true) ⊎ (urls.query "ref" u ≡ "")
      → (e : Error) × (resolve_root git urls resolve raw sub_path s ≡ (err e, s))
        × (resolve_commit git urls resolve raw s ≡ (err e, s))
        × (git_repo_scope urls raw ≡ err e)
  unfolding resolve_root resolve_split resolve_commit commit_of git_repo_scope
  resolve_root_unpinned resolve raw sub_path u s parsed h =
      let (e, refused) = split_ref-refused urls raw u parsed h in
      (
        e,
        ap (λ (r : Result SplitRef). resolve_split git urls resolve sub_path r s) refused,
        ap (λ (r : Result SplitRef). commit_of git urls resolve r s) refused,
        ap (git_scope_of urls) refused,
      )
