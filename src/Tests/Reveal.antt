-- ===== src/Tests/Reveal.antt =====
-- What the handlers reveal of the sample's repository, which is private.
use scissy.Base.{
  ℕ, ◌+◌, ◌%◌, ◌≤◌, ◌≡◌, ◌≢◌, refl, ap, ◌∙◌, inl, inr, true, false, Option, none, some, List, [],
  ◌∷◌, map, arith,
}
use scissy.Base.Bytes.{Bytes, codes}
use scissy.Pb.Git.{LogSelector, GitCommit}
use scissy.Pb.View.{shown, Member}
use scissy.Git.{Git}
use scissy.Service.{answered, check_public_repo}
use scissy.Service.View.Content.{
  copy_commit, log_loop, walk_start, oid_of, opened, repo_get_log, repo_list_branches,
  repo_get_tags,
}
use scissy.Service.View.Listing.{repo_entry, member_list, repo_get_info, repo_list_members}
use scissy.Base.Rows.Member.{In}
use scissy.Schema.{RepoUser, Repo, User}
use scissy.Repositories.{get_repo_path}
use scissy.Session.{session, anonymous}
use scissy.Db.{repo_is_public, repo_get_id, repo_get_user_role}
use scissy.Db.Granted.{repo_get_user_role-IsGreatest}
use scissy.Server.Reveal.{log, view, view_hidden}
use scissy.Server.Reveal.Open.{view_shown}
use scissy.Server.Authority.Reads.{Names}
use scissy.Server.Reveal.Head.{MayRead, MayReadId, public, private}
use scissy.Server.Reveal.Log.{repo_get_log-Window, Starts, Window}
use scissy.Service.View.Content.Log.{length}
use scissy.Server.Reveal.Lists.Members.{member_list-In}
use scissy.Tests.Sample.{host, cfg, by_name, bob_cookies, world, world-IsValid, runs}

-- A history of five commits, each the parent of the next.
abbrev pub git : Git
git = record {
  Repo = Bytes;
  Oid = ℕ;
  Commit = ℕ;
  Tree = ℕ;
  Entry = ℕ;
  Blob = ℕ;
  Diff = ℕ;
  open_repo = λ path. some path;
  last_commit_time = λ repo. 5;
  branches = λ repo. codes "main" ∷ [];
  tags = λ repo. [];
  reference_to_oid = λ repo name. some 5;
  oid_text = λ oid. (b'0' + oid % 10) ∷ [];
  commit = λ repo oid. some oid;
  commit_id = λ c. c;
  parents = λ c. [];
  first_parent = λ c. none;
  commit_tree_id = λ c. c;
  message = λ c. [];
  commit_time = λ c. c;
  time_offset = λ c. 0;
  committer = λ c. record { name = []; email = []; time = c; offset = 0 };
  author = λ c. record { name = []; email = []; time = c; offset = 0 };
  has_revwalk = λ repo. true;
  revwalk = λ repo start. 5 ∷ 4 ∷ 3 ∷ 2 ∷ 1 ∷ [];
  tree = λ repo oid. some oid;
  directory = λ repo oid path. none;
  entries = λ tree. [];
  entry_by_path = λ tree path. none;
  entry_name = λ e. [];
  entry_type = λ e. 0;
  entry_mode = λ e. 0;
  entry_id = λ e. e;
  blob = λ repo oid. none;
  is_binary = λ b. false;
  content = λ b. [];
  diff = λ repo old new. none;
  patches = λ d. [];
  mime_type = λ path. [];
}

-- No history at all.
abbrev bare_git : Git
bare_git = record git { open_repo = λ path. none }

abbrev request : LogSelector
request = record { repo = by_name (codes "lib"); revision = none; limit = some 2; offset = some 1 }

abbrev commits : List GitCommit
commits = map (copy_commit host cfg git) (4 ∷ 3 ∷ [])

bob_reads :
    (repo_get_log host cfg git (session bob_cookies world.db) request world).0
    ≡ answered (shown commits)
unfolding runs get_repo_path copy_commit log_loop walk_start oid_of opened repo_get_log
    check_public_repo
bob_reads = refl

repo_get_log-Window_example :
    (length commits ≤ 64)
    × ((p : ℕ) × (repo : Bytes) × (start : Option ℕ) × Names repo_get_id request.repo world.db p
        × MayReadId (session bob_cookies world.db) world.db p
        × (git.open_repo (get_repo_path host cfg p) ≡ some repo)
        × Starts host cfg git repo none start
        × Window host cfg git request repo start commits)
repo_get_log-Window_example =
    repo_get_log-Window host cfg git (session bob_cookies world.db) request world commits
      world-IsValid (omega arith) (omega arith) bob_reads

named_lib : repo_get_id (codes "lib") world.db ≡ some 1
unfolding runs
named_lib = refl

lib_IsPrivate : repo_is_public 1 world.db ≡ some false
unfolding runs
lib_IsPrivate = refl

no_role : (repo_get_user_role 1 0 world.db).1 ≡ 0
unfolding runs
no_role = refl

no_session : anonymous.user_id ≡ 0
no_session = refl

hidden_id : ¬ MayReadId anonymous world.db 1
hidden_id (public e) = cc (e, lib_IsPrivate)
hidden_id (private n g le) =
    let (k, bound, rest) = repo_get_user_role-IsGreatest world.db 1 0 world-IsValid in
    let b = bound n (rw no_session at g) in absurd (omega (arith, b, le, no_role))

id_of : (p : ℕ) → repo_get_id (codes "lib") world.db ≡ some p → p ≡ 1
id_of p k = cc (k, named_lib)

hidden : ¬ MayRead anonymous (by_name (codes "lib")) world.db
hidden (p, inl e, h) = absurd (cc e)
hidden (p, inr (e, (name, i, j)), h) =
    let n : codes "lib" ≡ name = cc i in
    let k : repo_get_id (codes "lib") world.db ≡ some p = ap (λ m. repo_get_id m world.db) n ∙ j in
    hidden_id (rw (id_of p k) at h)

view_hidden_example :
    ((content : List GitCommit)
      → (view host cfg git anonymous (log request) world).0 ≢ answered (shown content))
    × (view host cfg git anonymous (log request) world
        ≡ view host cfg bare_git anonymous (log request) world)
view_hidden_example =
    view_hidden anonymous world world-IsValid host host cfg cfg git bare_git (log request) hidden

member_list-In_example :
    ((m : Member)
      → In m (member_list 1 world.db).users
      → ((ru : RepoUser) × In ru world.db.repos_users
          × (ru.repo_id ≡ 1)
          × (m.id ≡ ru.user_id)
          × (m.role ≡ ru.role_id))
        × ((u : User) × In u world.db.users × (u.user_id ≡ m.id) × (u.login ≡ m.name)))
    × ((ru : RepoUser)
        → In ru world.db.repos_users
        → ru.repo_id ≡ 1
        → (m : Member) × In m (member_list 1 world.db).users
          × (m.id ≡ ru.user_id)
          × (m.role ≡ ru.role_id))
member_list-In_example = member_list-In world.db 1 world-IsValid

lib_is_named : Names repo_get_id (by_name (codes "lib")) world.db 1
lib_is_named = inr (refl, (codes "lib", refl, named_lib))

bob_MayRead : MayReadId (session bob_cookies world.db) world.db 1
unfolding runs
bob_MayRead =
    let k = repo_get_user_role-IsGreatest world.db 1 2 world-IsValid in
    elim k.2 [ inl z ↦ absurd (omega arith) | inr g ↦ private 1 g (omega arith) ]

view_shown_example :
    ((r : Repo) × In r world.db.repos
      × (r.repo_id ≡ 1)
      × (repo_get_info host cfg git (session bob_cookies world.db) (by_name (codes "lib")) world
          ≡ (answered (shown (repo_entry host cfg git r)), world)))
    × (repo_list_members (session bob_cookies world.db) (by_name (codes "lib")) world
        ≡ (answered (shown (member_list 1 world.db)), world))
    × (repo_list_branches host cfg git (session bob_cookies world.db) (by_name (codes "lib")) world
        ≡ (answered (shown (codes "main" ∷ [])), world))
    × (repo_get_tags host cfg git (session bob_cookies world.db) (by_name (codes "lib")) world
        ≡ (answered (shown []), world))
view_shown_example =
    view_shown host cfg git (session bob_cookies world.db) (by_name (codes "lib")) world 1
      (get_repo_path host cfg 1) world-IsValid lib_is_named bob_MayRead refl
