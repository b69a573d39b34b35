-- ===== src/Git.antt =====
-- libgit2, and mimosa's wrappers around it, as far as the handlers use them: what each call finds in
-- the repositories on the disk. A repository does not change while a request reads it.
use scissy.Base.{ℕ, Bool, Option, List}
use scissy.Base.Bytes.{Bytes}

-- `git_signature`: the time and the offset are what the casts to 64 unsigned bits give.
pub record Signature : Type 0 where
  pub name : Bytes
  pub email : Bytes
  pub time : ℕ
  pub offset : ℕ

pub record Git : Type 1 where
  pub Repo : Type 0
  pub Oid : Type 0
  pub Commit : Type 0
  pub Tree : Type 0
  pub Entry : Type 0
  pub Blob : Type 0
  pub Diff : Type 0
  -- mimosa::git::Repository and its test
  pub open_repo : Bytes → Option Repo
  pub last_commit_time : Repo → ℕ
  -- the names that git_branch_next gives for the local branches
  pub branches : Repo → List Bytes
  -- git_tag_foreach
  pub tags : Repo → List (Bytes × Oid)
  pub reference_to_oid : Repo → Bytes → Option Oid
  -- git_oid_tostr
  pub oid_text : Oid → Bytes
  -- mimosa::git::Commit, git_commit_lookup
  pub commit : Repo → Oid → Option Commit
  pub commit_id : Commit → Oid
  pub parents : Commit → List Oid
  -- git_commit_parent, of the first parent
  pub first_parent : Commit → Option Commit
  pub commit_tree_id : Commit → Oid
  pub message : Commit → Bytes
  -- the time and its offset, cast to 64 unsigned bits
  pub commit_time : Commit → ℕ
  pub time_offset : Commit → ℕ
  pub committer : Commit → Signature
  pub author : Commit → Signature
  -- whether mimosa::git::Revwalk can be made
  pub has_revwalk : Repo → Bool
  -- what git_revwalk_next gives by time, until it fails, from a commit or from the head
  pub revwalk : Repo → Option Oid → List Oid
  -- mimosa::git::Tree, and the same under a directory
  pub tree : Repo → Oid → Option Tree
  pub directory : Repo → Oid → Bytes → Option Tree
  -- git_tree_entry_byindex, for each index in turn
  pub entries : Tree → List (Option Entry)
  pub entry_by_path : Tree → Bytes → Option Entry
  pub entry_name : Entry → Bytes
  -- the type and the mode, as patterns of 32 bits
  pub entry_type : Entry → ℕ
  pub entry_mode : Entry → ℕ
  pub entry_id : Entry → Oid
  pub blob : Repo → Oid → Option Blob
  pub is_binary : Blob → Bool
  pub content : Blob → Bytes
  -- git_diff_tree_to_tree, from no tree or from one
  pub diff : Repo → Option Tree → Tree → Option Diff
  -- for each delta the text of its patch, if git_patch_from_diff and git_patch_to_buf give one
  pub patches : Diff → List (Option Bytes)
  -- mimosa::http::MimeDb::mimeType
  pub mime_type : Bytes → Bytes
