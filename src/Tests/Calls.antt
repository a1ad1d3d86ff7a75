-- ===== src/Tests/Calls.antt =====
-- The calls of the fetchers of sources, which find what the theorems' examples fetch. `note` is
-- what a call does to the world besides.
use dual_deployment_operator.Base.{
  refl, ◌≡◌, String, Bool, true, false, none, some, List, [], ◌∷◌, ◌==◌, if◌then◌else◌, ok, err, M,
  plain, concat, Keeps,
}
use dual_deployment_operator.Source.Url.{UrlLibrary}
use dual_deployment_operator.Source.Git.{GitLibrary}
use dual_deployment_operator.Source.Plan.{FileSystem, ChartFiles, Chartfile}
use dual_deployment_operator.Source.Select.{Calls}
use dual_deployment_operator.Source.Select.Confined.{LibrariesKeep}

-- Whether there is a user, the path, and the ref.
abbrev pub Url : Type 0
Url = Bool × String × String

abbrev pub urls : UrlLibrary Url
urls = record {
  parse = λ raw. ok (raw == "login", "/repo//root/", if raw == "unpinned" then "" else "v1");
  has_user = λ u. u.0;
  host = λ u. "forge";
  path = λ u. u.1;
  query = λ key u. u.2;
  with_path = λ path u. (u.0, path, u.2);
  without_query = λ u. u;
  print = λ u. concat ("https://forge" ∷ u.1 ∷ []);
  join_path = concat;
}

abbrev pub meta : Chartfile
meta = record {
  name = "app";
  dependencies =
      record { name = "common"; repository = "https://charts" }
      ∷ record { name = "extra"; repository = "oci://registry" }
      ∷ [];
}

abbrev slashed : List String → List String
slashed [] = []
slashed (p ∷ ps) = "/" ∷ p ∷ slashed ps

abbrev joined : List String → String
joined [] = ""
joined (p ∷ ps) = concat (p ∷ slashed ps)

module _ {S : Type 0} (note : String → S → S) where
  abbrev say : {A : Type 0} → String → A → M S A
  say call a s = (a, note call s)

  abbrev pub git_over : GitLibrary S String String String
  git_over = record {
    mkdir_temp = λ pattern. say "mkdir" (ok "tmp");
    remove_all = λ dir. say "remove" tt;
    clone = λ dir url auth name. say "clone" (some (plain "not found"));
    init = λ dir. say "init" (ok dir);
    create_remote = λ repo url. say "remote" (ok url);
    fetch = λ remote auth. say "fetch" none;
    worktree = λ repo. say "worktree" (ok repo);
    checkout = λ w sha. say "checkout" none;
    list_refs = λ url auth. say "list" (ok (("refs/tags/v1", "abcdef1") ∷ []));
  }

  -- One chart is vendored as a directory, and there is a lock.
  abbrev pub files_over : FileSystem S
  files_over = record {
    mkdir_temp = λ dir pattern. say "mkdir" (ok "tmp");
    mkdir_all = λ dir. say "mkdir" none;
    remove_all = λ dir. say "remove" tt;
    read_dir = λ dir log. ok [];
    stat = λ path log.
        if path == "chart/charts/common"
        then ok true
        else if path == "chart/Chart.lock"
        then ok false
        else err (plain "missing");
    glob = λ pattern log. ok [];
    is_not_exist = λ e. true;
    join_path = joined;
  }

  abbrev pub charts_over : ChartFiles S
  charts_over = record {
    load_chartfile = λ path log. ok meta;
    is_oci = λ repository. repository == "oci://registry";
  }

  abbrev pub calls_over : Calls S String String String String Url String String String String
  calls_over = record {
    registry = record {
      new_client = λ options. say "client" (ok "client");
      pull = λ client version dest ref. say "pull" none;
      resolve = λ client ref. say "resolve" (ok "sha256:1");
      open_file = λ path. say "open" (ok path);
      close = λ f. say "close" tt;
      expand = λ dest f. say "expand" none;
      build = λ client dir. say "build" none;
      load_dir = λ dir. say "load" (ok dir);
    };
    git = git_over;
    urls = urls;
    files = files_over;
    charts = charts_over;
    helm = record {
      load = λ repo name version. say "load" (ok name);
      unmarshal_values = λ raw. err (plain "no values");
      coalesce_tables = λ first second. first;
      install = λ chart name ns values. say "install" (ok "apps");
    };
    kustomize = record {
      resolve = λ url path. say "resolve" (err (plain "no root"));
      run = λ root. say "run" (ok root);
      as_yaml = λ tree. ok tree;
    };
  }

  -- What every note but that of a patch keeps.
  pub calls_over-LibrariesKeep :
      (P : S → Type 0)
      → ((call : String) (s : S) → (call == "patch") ≡ false → P s → P (note call s))
      → LibrariesKeep P calls_over
  calls_over-LibrariesKeep P kept = record {
    registry = record {
      new_client = λ options. kept-Keeps _ refl;
      pull = λ client version dest ref. kept-Keeps _ refl;
      resolve = λ client ref. kept-Keeps _ refl;
      open_file = λ path. kept-Keeps _ refl;
      close = λ f. kept-Keeps _ refl;
      expand = λ dest f. kept-Keeps _ refl;
      build = λ client dir. kept-Keeps _ refl;
      load_dir = λ dir. kept-Keeps _ refl;
    };
    git = record {
      mkdir_temp = λ pattern. kept-Keeps _ refl;
      remove_all = λ dir. kept-Keeps _ refl;
      clone = λ dir url auth name. kept-Keeps _ refl;
      init = λ dir. kept-Keeps _ refl;
      create_remote = λ repo url. kept-Keeps _ refl;
      fetch = λ remote auth. kept-Keeps _ refl;
      worktree = λ repo. kept-Keeps _ refl;
      checkout = λ w sha. kept-Keeps _ refl;
      list_refs = λ url auth. kept-Keeps _ refl;
    };
    files = record {
      mkdir_temp = λ dir pattern. kept-Keeps _ refl;
      mkdir_all = λ dir. kept-Keeps _ refl;
      remove_all = λ dir. kept-Keeps _ refl;
    };
    install = λ chart name ns values. kept-Keeps _ refl;
    run = λ root. kept-Keeps _ refl;
  }
    where
      kept-Keeps :
          {A : Type 0} {a : A} (call : String) → (call == "patch") ≡ false → Keeps P (say call a)
      kept-Keeps call other = record { at = λ s p. kept call s other p }
