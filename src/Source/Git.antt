-- ===== src/Source/Git.antt =====
-- internal/source/gitresolver.go: a kustomize root is fetched at a pinned ref, and the ref is resolved
-- to a commit for the cache.
pub mod Pinned
pub mod Commit
pub mod Cleanup
pub mod Calls
use dual_deployment_operator.Base.{
  ℕ, String, Bool, true, false, Option, none, some, List, [], ◌∷◌, ◌==◌, ◌&&◌, ◌||◌, if◌then◌else◌,
  Error, Result, ok, err, plain, concat, M, pure, ◌>>=◌, ◌>>?◌, wrapping, checked, cut, trim_left,
  trim_right, every_char, between, leb,
}
use Prim.Native.String.{count}
use dual_deployment_operator.Library.{Library}
use dual_deployment_operator.Source.Credentials.{Creds}
use dual_deployment_operator.Source.Url.{UrlLibrary, Resolve, host_of}

-- shaRe
unfoldable pub is_sha : String → Bool
is_sha s = between 7 40 (count s) && every_char (λ c. between b'0' b'9' c || between b'a' b'f' c) s

-- `httpauth.BasicAuth`; nothing is anonymous.
abbrev pub Auth : Type 0
Auth = Option (String × String)

-- go-git and the file system. `clone` is the shallow clone of one reference, `fetch` fetches all
-- branches and tags, and `list_refs` gives the names and the hashes that the remote advertises, with
-- the peeled ones appended.
pub record GitLibrary (S Repo Remote Worktree : Type 0) : Type 0 where
  pub mkdir_temp : String → M S (Result String)
  pub remove_all : String → M S (Unit {0})
  pub clone : String → String → Auth → String → M S (Option Error)
  pub init : String → M S (Result Repo)
  pub create_remote : Repo → String → M S (Result Remote)
  pub fetch : Remote → Auth → M S (Option Error)
  pub worktree : Repo → M S (Result Worktree)
  pub checkout : Worktree → String → M S (Option Error)
  pub list_refs : String → Auth → M S (Result (List (String × String)))

-- What `splitRef` gives: the URL to clone, the path in the repository, and the ref.
pub record SplitRef : Type 0 where
  pub clone_url : String
  pub root_sub_path : String
  pub ref : String

abbrev pub git_error : List String → Error
git_error parts = plain (concat ("source: " ∷ parts))

-- The error of a call between a message and " (fail-closed)".
abbrev pub fail_closed : {S A : Type 0} → String → M S (Result A) → M S (Result A)
fail_closed prefix m = m >>= λ r. pure (elim r [
  | ok a ↦ ok a
  | err e ↦ err (record e { message = concat (prefix ∷ e.message ∷ " (fail-closed)" ∷ []) })
])

abbrev pub trim_slashes : String → String
trim_slashes s = trim_right b'/' (trim_left b'/' s)

module _ {Url : Type 0} (urls : UrlLibrary Url) where
  abbrev pub split_path : Url → String → Option (String × String) → SplitRef
  split_path u ref none = record { clone_url = urls.print u; root_sub_path = ""; ref = ref }
  split_path u ref (some (before, after)) = record {
    clone_url = urls.print (urls.with_path before u);
    root_sub_path = trim_slashes after;
    ref = ref;
  }

  unfoldable pub split_parsed : Result Url → Result SplitRef
  split_parsed (err e) =
      err (record e { message = concat ("source: parse kustomize url: " ∷ e.message ∷ []) })
  split_parsed (ok u) =
      let ref = urls.query "ref" u in
      if urls.has_user u
      then err (
          git_error ("kustomize url must not embed credentials in the URL; use authSecretRef" ∷ []))
      else if ref == ""
      then err (git_error ("kustomize url missing pinned ?ref=" ∷ []))
      else ok (split_path (urls.without_query u) ref (cut "//" (urls.path (urls.without_query u))))

  unfoldable pub split_ref : String → Result SplitRef
  unfolding split_parsed
  split_ref raw = split_parsed (urls.parse raw)

module _ {Url : Type 0} (urls : UrlLibrary Url) where
  -- repoScope
  abbrev pub git_scope_of : Result SplitRef → Result String
  git_scope_of (err e) = err e
  git_scope_of (ok s) = ok (concat ("git:" ∷ host_of urls s.clone_url ∷ []))

  unfoldable pub git_repo_scope : String → Result String
  unfolding split_ref host_of
  git_repo_scope raw = git_scope_of (split_ref urls raw)

abbrev pub auth_of : Creds → Auth
auth_of c = if c.usable then some (c.user, c.pass) else none

module _ {S Url : Type 0} (urls : UrlLibrary Url) where
  unfoldable pub auth_for : Resolve S → String → M S (Result Auth)
  unfolding host_of
  auth_for none base = pure (ok none)
  auth_for (some resolve) base = resolve (host_of urls base) >>? λ c. pure (ok (auth_of c))

-- byName: of two references of one name, the last one.
unfoldable pub find_ref : String → List (String × String) → Option String
find_ref name [] = none
find_ref name ((n, hash) ∷ refs) =
    let later = find_ref name refs in
    elim later [ some h ↦ some h | none ↦ (if n == name then some hash else none) ]

-- The first name that is listed: the peeled tag, the tag, or the branch.
unfoldable pub first_listed : List String → List (String × String) → Option String
unfolding find_ref
first_listed [] refs = none
first_listed (name ∷ names) refs =
    let rest = first_listed names refs in
    elim (find_ref name refs) [ some hash ↦ some hash | none ↦ rest ]

abbrev pub candidates : String → List String
candidates ref =
    concat ("refs/tags/" ∷ ref ∷ "^{}" ∷ [])
    ∷ concat ("refs/tags/" ∷ ref ∷ [])
    ∷ concat ("refs/heads/" ∷ ref ∷ [])
    ∷ []

module _ ⦃k : Library⦄ where
  unfoldable pub listed_commit : String → String → List (String × String) → Result String
  unfolding first_listed
  listed_commit base ref refs = elim (first_listed (candidates ref) refs) [
    | some hash ↦ ok hash
    | none ↦ err (
        git_error
          ("could not resolve ref " ∷ k.quote ref ∷ " on " ∷ base ∷ " to a commit SHA" ∷ []))
  ]

module _ {S Repo Remote Worktree : Type 0} (git : GitLibrary S Repo Remote Worktree)
    ⦃k : Library⦄ where
  unfoldable pub fetch_sha : String → String → String → Auth → M S (Result (Unit {0}))
  fetch_sha dir base sha auth = git.init dir >>? λ repo. git.create_remote repo base >>? λ remote.
      fail_closed (concat ("source: fetch sha " ∷ sha ∷ ": " ∷ []))
        (checked (git.fetch remote auth))
      >>? λ _. git.worktree repo >>? λ w.
          fail_closed (concat ("source: checkout sha " ∷ sha ∷ ": " ∷ []))
            (checked (git.checkout w sha))

  -- The references are tried in turn; the errors but for the last are dropped.
  unfoldable pub clone_one_of :
      String → String → String → Auth → List String → M S (Result (Unit {0}))
  clone_one_of dir base ref auth [] = pure (
      err (
        git_error ("could not resolve ref " ∷ k.quote ref ∷ " on " ∷ base ∷ " (fail-closed)" ∷ [])))
  clone_one_of dir base ref auth (name ∷ names) = do
    failed ← git.clone dir base auth name
    elim failed [ none ↦ pure (ok tt) | some e ↦ clone_one_of dir base ref auth names ]

  unfoldable pub fetch_pinned : String → String → String → Auth → M S (Result (Unit {0}))
  unfolding fetch_sha clone_one_of is_sha
  fetch_pinned dir base ref auth =
      if is_sha ref
      then fetch_sha dir base ref auth
      else clone_one_of dir base ref auth
          (concat ("refs/tags/" ∷ ref ∷ []) ∷ concat ("refs/heads/" ∷ ref ∷ []) ∷ [])

  -- Resolve, once the directory exists: it is removed if a later step fails, and else by the caller.
  unfoldable pub or_clean_up : String → Result String → M S (Result (String × M S (Unit {0})))
  or_clean_up dir (err e) = do _ ← git.remove_all dir; pure (err e)
  or_clean_up dir (ok path) = pure (ok (path, git.remove_all dir))

module _ {S Repo Remote Worktree Url : Type 0} (git : GitLibrary S Repo Remote Worktree)
    (urls : UrlLibrary Url) ⦃k : Library⦄ where
  unfoldable pub fetch_root : Resolve S → String → SplitRef → String → M S (Result String)
  unfolding auth_for fetch_pinned
  fetch_root resolve sub_path s dir =
      wrapping "source: resolve credentials: " (auth_for urls resolve s.clone_url) >>? λ auth.
      fetch_pinned git dir s.clone_url s.ref auth >>? λ _.
      pure (ok (urls.join_path (dir ∷ s.root_sub_path ∷ sub_path ∷ [])))

  unfoldable pub resolve_split :
      Resolve S → String → Result SplitRef → M S (Result (String × M S (Unit {0})))
  unfolding fetch_root or_clean_up
  resolve_split resolve sub_path (err e) = pure (err e)
  resolve_split resolve sub_path (ok s) = git.mkdir_temp "ddo-kustomize-" >>? λ dir.
      fetch_root resolve sub_path s dir >>= or_clean_up git dir

  unfoldable pub resolve_root : Resolve S → String → String → M S (Result (String × M S (Unit {0})))
  unfolding resolve_split split_ref
  resolve_root resolve raw sub_path = resolve_split resolve sub_path (split_ref urls raw)

  -- A ref that is not written like a commit is looked up in what the remote lists.
  unfoldable pub list_commit : Resolve S → SplitRef → M S (Result String)
  unfolding auth_for listed_commit
  list_commit resolve s =
      wrapping "source: resolve credentials: " (auth_for urls resolve s.clone_url) >>? λ auth.
      wrapping (concat ("source: ls-remote " ∷ s.clone_url ∷ ": " ∷ []))
        (git.list_refs s.clone_url auth)
      >>? λ refs. pure (listed_commit s.clone_url s.ref refs)

  unfoldable pub commit_of : Resolve S → Result SplitRef → M S (Result String)
  unfolding list_commit is_sha
  commit_of resolve (err e) = pure (err e)
  commit_of resolve (ok s) = if is_sha s.ref then pure (ok s.ref) else list_commit resolve s

  unfoldable pub resolve_commit : Resolve S → String → M S (Result String)
  unfolding commit_of split_ref
  resolve_commit resolve raw = commit_of resolve (split_ref urls raw)
