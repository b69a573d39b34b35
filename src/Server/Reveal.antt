-- ===== src/Server/Reveal.antt =====
-- What the handlers that read reveal of a repository, and to whom.
pub mod Head
pub mod Log
pub mod Lists
pub mod Open
use scissy.Base.{ℕ, ◌≡◌, ◌≢◌, refl, sym, ap, ◌∙◌, inl, inr, Option, none, some, List, Bool}
use scissy.Base.Bytes.{Bytes}
use scissy.Pb.{Selector}
use scissy.Pb.Git.{
  CommitSelector, LogSelector, TreeSelector, BlobSelector, DiffSelector, GitCommit, GitTreeEntry,
  GitBlob, GitTag,
}
use scissy.Pb.View.{Answer, shown, refused, MemberList, RepoEntry}
use scissy.Git.{Git}
use scissy.Host.{Host}
use scissy.Config.{Config}
use scissy.Schema.Valid.{IsValid}
use scissy.World.{World, M}
use scissy.Session.{Session}
use scissy.Service.{Reply, answered}
use scissy.Service.View.Listing.{repo_get_info, repo_list_members}
use scissy.Service.View.Content.{
  repo_list_branches, repo_get_tags, repo_get_commit, repo_get_tree, repo_get_blob, repo_get_patch,
  repo_get_log,
}
use scissy.Server.Reveal.Head.{MayRead, in_repo_hidden, in_repo_agrees}

-- The requests to see a part of a repository.
pub data View : Type 0 where
  info members branches tags : Selector → View
  commit : CommitSelector → View
  log : LogSelector → View
  tree : TreeSelector → View
  blob : BlobSelector → View
  patch : DiffSelector → View

-- What each of them shows.
abbrev pub Content : View → Type 0
Content (info sel) = RepoEntry
Content (members sel) = MemberList
Content (branches sel) = List Bytes
Content (tags sel) = List GitTag
Content (commit r) = GitCommit
Content (log r) = List GitCommit
Content (tree r) = List GitTreeEntry
Content (blob r) = GitBlob
Content (patch r) = Bytes

-- The repository that a request is about.
abbrev pub viewed : View → Selector
viewed (info sel) = sel
viewed (members sel) = sel
viewed (branches sel) = sel
viewed (tags sel) = sel
viewed (commit r) = r.repo
viewed (log r) = r.repo
viewed (tree r) = r.repo
viewed (blob r) = r.repo
viewed (patch r) = r.repo

unfoldable pub view : Host → Config → Git → Session → (v : View) → M (Reply (Answer (Content v)))
view host cfg git s (info sel) = repo_get_info host cfg git s sel
view host cfg git s (members sel) = repo_list_members s sel
view host cfg git s (branches sel) = repo_list_branches host cfg git s sel
view host cfg git s (tags sel) = repo_get_tags host cfg git s sel
view host cfg git s (commit r) = repo_get_commit host cfg git s r
view host cfg git s (log r) = repo_get_log host cfg git s r
view host cfg git s (tree r) = repo_get_tree host cfg git s r
view host cfg git s (blob r) = repo_get_blob host cfg git s r
view host cfg git s (patch r) = repo_get_patch host cfg git s r

module _ (s : Session) (w : World) (valid : IsValid w.db) where
  -- Over a well-formed database, a request to see a part of a repository shows nothing to a session
  -- that may not read it: no repository of that name or id is public or one on which the database
  -- grants the session's user at least the role of a reader. The reply is then the same whatever the
  -- repositories hold.
  pub view_hidden :
      (host host' : Host) (cfg cfg' : Config) (git git' : Git) (v : View)
      → ¬ MayRead s (viewed v) w.db
      → ((content : Content v) → (view host cfg git s v w).0 ≢ answered (shown content))
        × (view host cfg git s v w ≡ view host' cfg' git' s v w)
  unfolding view repo_get_info repo_list_members repo_list_branches repo_get_tags repo_get_commit
      repo_get_tree repo_get_blob repo_get_patch repo_get_log
  view_hidden host host' cfg cfg' git git' (info sel) h =
      (in_repo_hidden s w valid sel _ h, in_repo_agrees s w valid sel _ _ h)
  view_hidden host host' cfg cfg' git git' (members sel) h =
      (in_repo_hidden s w valid sel _ h, in_repo_agrees s w valid sel _ _ h)
  view_hidden host host' cfg cfg' git git' (branches sel) h =
      (in_repo_hidden s w valid sel _ h, in_repo_agrees s w valid sel _ _ h)
  view_hidden host host' cfg cfg' git git' (tags sel) h =
      (in_repo_hidden s w valid sel _ h, in_repo_agrees s w valid sel _ _ h)
  view_hidden host host' cfg cfg' git git' (commit r) h =
      (in_repo_hidden s w valid r.repo _ h, in_repo_agrees s w valid r.repo _ _ h)
  view_hidden host host' cfg cfg' git git' (log r) h =
      (in_repo_hidden s w valid r.repo _ h, in_repo_agrees s w valid r.repo _ _ h)
  view_hidden host host' cfg cfg' git git' (tree r) h =
      (in_repo_hidden s w valid r.repo _ h, in_repo_agrees s w valid r.repo _ _ h)
  view_hidden host host' cfg cfg' git git' (blob r) h =
      (in_repo_hidden s w valid r.repo _ h, in_repo_agrees s w valid r.repo _ _ h)
  view_hidden host host' cfg cfg' git git' (patch r) h =
      (in_repo_hidden s w valid r.repo _ h, in_repo_agrees s w valid r.repo _ _ h)
