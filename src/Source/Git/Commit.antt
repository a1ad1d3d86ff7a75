-- ===== src/Source/Git/Commit.antt =====
-- What a ref is resolved to (ResolveID in gitresolver.go).
use dual_deployment_operator.Base.{
  String, ◌≡◌, refl, ap, ◌∙◌, sym, true, some, ◌⊎◌, inl, inr, Result, ok, arith, ◌==◌, eq_iff, pure,
  List, [], ◌∷◌, Bool-cases, Option-cases, Result-cases, In, wrapping, wrapping-ok, chain-ok, ◌>>?◌,
  concat,
}
use dual_deployment_operator.Library.{Library}
use dual_deployment_operator.Source.Url.{UrlLibrary, Resolve}
use dual_deployment_operator.Source.Git.{
  GitLibrary, SplitRef, Auth, split_ref, list_commit, commit_of, resolve_commit, is_sha, find_ref,
  first_listed, candidates, listed_commit, auth_for,
}

-- A hash that is listed under one of the names.
pub record IsListed (names : List String) (refs : List (String × String)) (hash : String)
    : Type 0 where
  pub name : String
  pub named : In name names
  pub listed : In (name, hash) refs

find_ref-In :
    (name : String) (refs : List (String × String)) (hash : String)
    → find_ref name refs ≡ some hash
    → In (name, hash) refs
unfolding find_ref
find_ref-In name [] hash h = cc
find_ref-In name ((n, x) ∷ refs) hash h = elim (Option-cases (find_ref name refs)) [
  | inr (y, e) ↦ inr (find_ref-In name refs hash (ground arith))
  | inl e ↦ elim (Bool-cases (n == name)) [
    | inl same ↦
        (let p : n ≡ name = ground (arith, eq_iff n name) in
          let q : x ≡ hash = ground arith in inl (rw (p, q) refl))
    | inr other ↦ absurd (ground arith)
  ]
]

first_listed-IsListed :
    (names : List String) (refs : List (String × String)) (hash : String)
    → first_listed names refs ≡ some hash
    → IsListed names refs hash
unfolding first_listed
first_listed-IsListed [] refs hash h = cc
first_listed-IsListed (name ∷ names) refs hash h = elim (Option-cases (find_ref name refs)) [
  | inl e ↦
      (let rest = first_listed-IsListed names refs hash (ground arith) in
        record { name = rest.name; named = inr rest.named; listed = rest.listed })
  | inr (x, e) ↦ record {
    name = name;
    named = inl refl;
    listed = find_ref-In name refs hash (ground arith);
  }
]

module _ ⦃k : Library⦄ where
  listed_commit-IsListed :
      (base ref : String) (refs : List (String × String)) (hash : String)
      → listed_commit base ref refs ≡ ok hash
      → IsListed (candidates ref) refs hash
  unfolding listed_commit
  listed_commit-IsListed base ref refs hash h =
      elim (Option-cases (first_listed (candidates ref) refs)) [
        | inl e ↦ absurd (ground arith)
        | inr (x, e) ↦ first_listed-IsListed (candidates ref) refs hash (ground arith)
      ]

module _ {S Repo Remote Worktree Url : Type 0} (git : GitLibrary S Repo Remote Worktree)
    (urls : UrlLibrary Url) ⦃k : Library⦄ where
  -- What the remote lists in some call with this URL.
  pub record IsAdvertised (s : SplitRef) (id : String) : Type 0 where
    pub world : S
    pub auth : Auth
    pub refs : List (String × String)
    pub answer : (git.list_refs s.clone_url auth world).0 ≡ ok refs
    pub found : IsListed (candidates s.ref) refs id

  list_commit-IsAdvertised :
      (resolve : Resolve S) (s : SplitRef) (id : String) (world : S)
      → (list_commit git urls resolve s world).0 ≡ ok id
      → IsAdvertised s id
  unfolding list_commit
  list_commit-IsAdvertised resolve s id world h =
      let message = concat ("source: ls-remote " ∷ s.clone_url ∷ ": " ∷ []) in
      let authenticated =
        wrapping "source: resolve credentials: " (auth_for urls resolve s.clone_url) in
      let last =
        λ (refs : List (String × String)). pure {S = S} (listed_commit s.clone_url s.ref refs) in
      let (auth, _, listing) =
        chain-ok authenticated (λ auth. wrapping message (git.list_refs s.clone_url auth) >>? last)
          world id h in
      let next = (authenticated world).1 in
      let (refs, answer, found) =
        chain-ok (wrapping message (git.list_refs s.clone_url auth)) last next id listing in
      record {
        world = next;
        auth = auth;
        refs = refs;
        answer = wrapping-ok message (git.list_refs s.clone_url auth) next refs answer;
        found = listed_commit-IsListed s.clone_url s.ref refs id found;
      }

  commit_of-IsAdvertised :
      (resolve : Resolve S) (s : SplitRef) (id : String) (world : S)
      → (commit_of git urls resolve (ok s) world).0 ≡ ok id
      → ((is_sha s.ref ≡ true) × (id ≡ s.ref)) ⊎ IsAdvertised s id
  unfolding commit_of
  commit_of-IsAdvertised resolve s id world h = elim (Bool-cases (is_sha s.ref)) [
    | inl e ↦ inl (e, ground arith)
    | inr e ↦ inr (list_commit-IsAdvertised resolve s id world (ground arith))
  ]

  -- If a URL is resolved to an id, the URL has a ref, and either the ref is written like a commit
  -- and is the id, or the id is a hash that the remote lists under the peeled tag, the tag or the
  -- branch of this name.
  pub resolve_commit-IsAdvertised :
      (resolve : Resolve S) (raw id : String) (world : S)
      → (resolve_commit git urls resolve raw world).0 ≡ ok id
      → (s : SplitRef) × (split_ref urls raw ≡ ok s)
        × (((is_sha s.ref ≡ true) × (id ≡ s.ref)) ⊎ IsAdvertised s id)
  unfolding resolve_commit commit_of
  resolve_commit-IsAdvertised resolve raw id world h = elim (Result-cases (split_ref urls raw)) [
    | inl (e, p) ↦ absurd (ground arith)
    | inr (s, p) ↦ (
      s,
      p,
      commit_of-IsAdvertised resolve s id world
          (ap (λ (r : Result SplitRef). (commit_of git urls resolve r world).0) (sym p) ∙ h),
    )
  ]
