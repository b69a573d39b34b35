-- ===== src/Service/View/Content.antt =====
-- scissy/service.cc, the handlers on a repository's content, and scissy/helpers.cc.
pub mod Log
use scissy.Base.{
  ℕ, ◌+◌, ◌*◌, ◌%◌, ◌^◌, Bool, true, false, ◌||◌, not, Option, none, some, List, [], ◌∷◌, ◌++◌, map,
  String, get_or, ltb, ◌==◌, if◌then◌else◌,
}
use scissy.Base.Bytes.{Bytes}
use scissy.Pb.{k_not_found, k_internal_error, Selector}
use scissy.Pb.Git.{
  CommitSelector, LogSelector, TreeSelector, BlobSelector, DiffSelector, GitSignature, GitCommit,
  GitTreeEntry, GitBlob, GitTag,
}
use scissy.Pb.View.{Answer, shown, refused}
use scissy.Git.{Git, Signature}
use scissy.Host.{Host}
use scissy.Config.{Config}
use scissy.World.{M}
use scissy.Repositories.{get_repo_path}
use scissy.Session.{Session}
use scissy.Service.{Reply, Exec, answered, thrown, ◌>>=◌, ◌>>◌, or_stop, proceed, answer, unless_ok}
use scissy.Service.View.{in_repo}

-- A time in milliseconds: the sum is of 64 bits, and takes the offset as it is, in minutes.
abbrev pub milliseconds : ℕ → ℕ → ℕ
milliseconds time offset = (time * 1000 + offset) % 2 ^ 64

unfoldable pub copy_signature : Signature → GitSignature
copy_signature sig = record {
  name = sig.name;
  email = sig.email;
  time = milliseconds sig.time sig.offset;
}

module _ (host : Host) (cfg : Config) (git : Git) where
  open git use {Repo, Oid, Commit, Tree, Entry, Blob, Diff}

  unfoldable pub copy_commit : Commit → GitCommit
  unfolding copy_signature
  copy_commit c = record {
    id = git.oid_text (git.commit_id c);
    parents_id = map git.oid_text (git.parents c);
    msg = git.message c;
    time = milliseconds (git.commit_time c) (git.time_offset c);
    commiter = copy_signature (git.committer c);
    author = copy_signature (git.author c);
    tree_id = git.oid_text (git.commit_tree_id c);
  }

  module _ {A : Type 0} where
    -- The repository of an id.
    unfoldable pub opened : ℕ → Exec (Answer A) Repo
    opened p =
        or_stop (git.open_repo (get_repo_path host cfg p))
          (answered (refused k_internal_error "internal error"))

    unfoldable pub oid_of : Repo → Bytes → Exec (Answer A) Oid
    oid_of repo revision =
        or_stop (git.reference_to_oid repo revision)
          (answered (refused k_not_found "commit not found"))

    -- A revision, and its commit.
    unfoldable pub commit_of : Repo → Bytes → Exec (Answer A) Commit
    unfolding oid_of
    commit_of repo revision = do
      oid ← oid_of repo revision
      or_stop (git.commit repo oid) (answered (refused k_not_found "commit not found"))

    unfoldable pub tree_of : Repo → Commit → Exec (Answer A) Tree
    tree_of repo commit =
        or_stop (git.tree repo (git.commit_tree_id commit))
          (answered (refused k_not_found "tree not found"))

  unfoldable pub repo_list_branches : Session → Selector → M (Reply (Answer (List Bytes)))
  repo_list_branches s request =
      in_repo s request λ p. do repo ← opened p; answer (shown (git.branches repo))

  -- `getTagsCb`
  abbrev pub tag_of : Bytes × Oid → GitTag
  tag_of (name, oid) = record { name = name; revision = git.oid_text oid }

  unfoldable pub repo_get_tags : Session → Selector → M (Reply (Answer (List GitTag)))
  repo_get_tags s request =
      in_repo s request λ p. do repo ← opened p; answer (shown (map tag_of (git.tags repo)))

  unfoldable pub repo_get_commit : Session → CommitSelector → M (Reply (Answer GitCommit))
  repo_get_commit s request = in_repo s request.repo λ p. do
    repo ← opened p
    commit ← commit_of repo request.revision
    answer (shown (copy_commit commit))

  -- The loop over the entries, which ends at one that is missing.
  unfoldable pub tree_entries : List (Option Entry) → List GitTreeEntry
  tree_entries [] = []
  tree_entries (none ∷ es) = []
  tree_entries (some e ∷ es) =
      record {
        name = git.entry_name e;
        id = git.oid_text (git.entry_id e);
        type = git.entry_type e;
        mode = git.entry_mode e;
      }
      ∷ tree_entries es

  unfoldable pub repo_get_tree : Session → TreeSelector → M (Reply (Answer (List GitTreeEntry)))
  unfolding tree_entries
  repo_get_tree s request = in_repo s request.repo λ p. do
    repo ← opened p
    commit ← commit_of repo request.revision
    tree ←
        or_stop (git.directory repo (git.commit_tree_id commit) request.directory)
          (answered (refused k_not_found "tree not found"))
    answer (shown (tree_entries (git.entries tree)))

  -- The data of a blob are sent if it is no binary.
  abbrev blob_of : Bytes → Blob → GitBlob
  blob_of path b = record {
    is_binary = git.is_binary b;
    contents = if git.is_binary b then none else some (git.content b);
    content_type = git.mime_type path;
  }

  unfoldable pub repo_get_blob : Session → BlobSelector → M (Reply (Answer GitBlob))
  repo_get_blob s request = in_repo s request.repo λ p. do
    repo ← opened p
    commit ← commit_of repo request.revision
    tree ← tree_of repo commit
    entry ←
        or_stop (git.entry_by_path tree request.path)
          (answered (refused k_not_found "tree entry not found"))
    blob ←
        or_stop (git.blob repo (git.entry_id entry))
          (answered (refused k_not_found "blob not found"))
    answer (shown (blob_of request.path blob))

  -- The first parent, if there is a parent.
  unfoldable pub parent_of : Commit → List Oid → Exec (Answer Bytes) (Option Commit)
  parent_of commit [] = proceed none
  parent_of commit (oid ∷ oids) = do
    old ← or_stop (git.first_parent commit) (answered (refused k_not_found "commit not found"))
    proceed (some old)

  -- The old commit: that of the old revision, or else the first parent.
  unfoldable pub old_commit : Repo → Option Bytes → Commit → Exec (Answer Bytes) (Option Commit)
  unfolding parent_of
  old_commit repo none commit = parent_of commit (git.parents commit)
  old_commit repo (some revision) commit = do old ← commit_of repo revision; proceed (some old)

  -- The old tree, which need not be there.
  abbrev old_tree : Repo → Option Commit → Option Tree
  old_tree repo none = none
  old_tree repo (some commit) = git.tree repo (git.commit_tree_id commit)

  -- The loop over the deltas.
  unfoldable pub patch_text : List (Option Bytes) → Bytes
  patch_text [] = []
  patch_text (none ∷ ps) = patch_text ps
  patch_text (some p ∷ ps) = p ++ patch_text ps

  unfoldable pub repo_get_patch : Session → DiffSelector → M (Reply (Answer Bytes))
  unfolding patch_text
  repo_get_patch s request = in_repo s request.repo λ p. do
    repo ← opened p
    commit ← commit_of repo request.revision_new
    tree ← tree_of repo commit
    old ← old_commit repo request.revision_old commit
    diff ← or_stop (git.diff repo (old_tree repo old) tree) (thrown k_internal_error "diff error")
    answer (shown (patch_text (git.patches diff)))

  -- The limit that the configuration allows.
  abbrev pub log_limit : Option ℕ → ℕ
  log_limit none = cfg.git_log_limit
  log_limit (some limit) =
      if limit == 0 || ltb cfg.git_log_limit limit then cfg.git_log_limit else limit

  abbrev add_commit : Option Commit → List GitCommit → List GitCommit
  add_commit none commits = commits
  add_commit (some c) commits = copy_commit c ∷ commits

  -- The loop from `i` on, over what the walk still gives.
  unfoldable pub log_loop : Repo → ℕ → ℕ → ℕ → List Oid → List GitCommit
  log_loop repo bound offset i [] = []
  log_loop repo bound offset i (oid ∷ walk) =
      let rest = log_loop repo bound offset (i + 1) walk in
      if ltb i bound
      then if ltb i offset then rest else add_commit (git.commit repo oid) rest
      else []

  -- Where the walk starts: at a commit, or at the head.
  unfoldable pub walk_start : Repo → Option Bytes → Exec (Answer (List GitCommit)) (Option Oid)
  walk_start repo none = proceed none
  walk_start repo (some revision) = do oid ← oid_of repo revision; proceed (some oid)

  -- The bound of the loop is a sum of 32 bits.
  unfoldable pub repo_get_log : Session → LogSelector → M (Reply (Answer (List GitCommit)))
  unfolding log_loop
  repo_get_log s request = in_repo s request.repo λ p. do
    repo ← opened p
    unless_ok (git.has_revwalk repo)
        (refused k_internal_error "failed to initialize revision walker")
    start ← walk_start repo request.revision
    let limit = log_limit request.limit
    let offset = get_or request.offset 0
    answer (shown (log_loop repo ((limit + offset) % 2 ^ 32) offset 0 (git.revwalk repo start)))
