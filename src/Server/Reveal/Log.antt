-- ===== src/Server/Reveal/Log.antt =====
-- What `repo_get_log` shows: the window of the walk that was asked for.
use native.Mathlib.Nat.{le_trans}
use scissy.Base.{
  ℕ, ◌+◌, ◌%◌, ◌^◌, ◌≤◌, ◌<◌, ◌≡◌, refl, sym, ap, ◌∙◌, inl, inr, Option, none, some, List, [],
  arith, get_or, ltb, Option-cases, if◌then◌else◌,
}
use scissy.Base.Bytes.{Bytes}
use scissy.Pb.{k_internal_error}
use scissy.Pb.Git.{LogSelector, GitCommit}
use scissy.Pb.View.{Answer, shown, refused}
use scissy.Git.{Git}
use scissy.Host.{Host}
use scissy.Config.{Config}
use scissy.World.{World}
use scissy.Repositories.{get_repo_path}
use scissy.Session.{Session}
use scissy.Service.{Reply, answered, Exec, next, run, ◌>>=◌, ◌>>◌, answer, unless_ok, macros}
use scissy.Service.Went.{
  Careful, IsGood, bind-Went, >>=-Careful, proceed-Careful, or_stop-Careful, unless_ok-Careful,
  or_stop-next, or_stop-Reads,
}
use scissy.Service.View.Content.{opened, oid_of, walk_start, log_limit, log_loop, repo_get_log}
use scissy.Service.View.Content.Log.{
  take, drop, length, copies, log_loop-window, length-window, log_limit-le,
}
use scissy.Server.Authority.Reads.{Names, unless_ok-Reads}
use scissy.Schema.Valid.{IsValid}
use scissy.Db.{repo_get_id}
use scissy.Server.Reveal.Head.{
  IsShown, MayReadId, check_public_repo-MayRead, check_public_repo-Careful, check_public_repo-Reads,
}

abbrev Log : Type 0
Log = List GitCommit

abbrev Good : Reply (Answer Log) → Type 0
Good = IsGood IsShown

module _ (host : Host) (cfg : Config) (git : Git) where
  opened-Careful : (p : ℕ) → Careful (IsShown {A = Log}) (opened host cfg git p)
  unfolding opened
  opened-Careful p = or_stop-Careful IsShown (git.open_repo (get_repo_path host cfg p)) _ λ h. h

  opened-next :
      (p : ℕ) (w : World) (repo : git.Repo)
      → (opened host cfg git {A = Log} p w).0 ≡ next repo
      → git.open_repo (get_repo_path host cfg p) ≡ some repo
  unfolding opened
  opened-next p w repo e = or_stop-next (git.open_repo (get_repo_path host cfg p)) _ w repo e

  opened-Reads : (p : ℕ) (w : World) → (opened host cfg git {A = Log} p w).1 ≡ w
  unfolding opened
  opened-Reads p w = or_stop-Reads (git.open_repo (get_repo_path host cfg p)) _ w

  walk_start-Careful :
      (repo : git.Repo) (revision : Option Bytes)
      → Careful IsShown (walk_start host cfg git repo revision)
  unfolding walk_start oid_of
  walk_start-Careful repo none = proceed-Careful IsShown none
  walk_start-Careful repo (some revision) =
      >>=-Careful IsShown _ _
        (or_stop-Careful IsShown (git.reference_to_oid repo revision) _ λ h. h)
        λ oid. proceed-Careful IsShown (some oid)

  walk_start-Reads :
      (repo : git.Repo) (revision : Option Bytes) (w : World)
      → (walk_start host cfg git repo revision w).1 ≡ w
  unfolding walk_start oid_of macros
  walk_start-Reads repo none w = refl
  walk_start-Reads repo (some revision) w = ground arith

  -- Where the walk starts: at the head, or at the commit of the revision that was asked for.
  abbrev pub Starts : git.Repo → Option Bytes → Option git.Oid → Type 0
  Starts repo none start = start ≡ none
  Starts repo (some revision) start =
      (oid : git.Oid) × (git.reference_to_oid repo revision ≡ some oid) × (start ≡ some oid)

  walk_start-Starts :
      (repo : git.Repo) (revision : Option Bytes) (w : World) (start : Option git.Oid)
      → (walk_start host cfg git repo revision w).0 ≡ next start
      → Starts repo revision start
  unfolding walk_start oid_of macros
  walk_start-Starts repo none w start e = cc
  walk_start-Starts repo (some revision) w start e =
      elim (Option-cases (git.reference_to_oid repo revision)) [
        | inl n ↦ ground arith
        | inr (oid, o) ↦ (oid, o, ground arith)
      ]

  -- What is shown of a log.
  abbrev pub Window : LogSelector → git.Repo → Option git.Oid → Log → Type 0
  Window r repo start commits = commits ≡ (
      if ltb (log_limit host cfg git r.limit + get_or r.offset 0) (2 ^ 32)
      then copies host cfg git repo (
          take (log_limit host cfg git r.limit) (drop (get_or r.offset 0) (git.revwalk repo start)))
      else [])

  IsShown-of :
      {reply : Reply (Answer Log)} (commits : Log) → reply ≡ answered (shown commits) → Good reply
  IsShown-of commits e = rw e tt

  -- The end of the handler, from the repository on.
  abbrev log_end : LogSelector → git.Repo → Exec (Answer Log) (Answer Log)
  log_end r repo = do
    unless_ok (git.has_revwalk repo)
        (refused k_internal_error "failed to initialize revision walker")
    start ← walk_start host cfg git repo r.revision
    answer (
        shown (
          log_loop host cfg git repo ((log_limit host cfg git r.limit + get_or r.offset 0) % 2 ^ 32)
            (get_or r.offset 0) 0 (git.revwalk repo start)))

  shown_injective : {a b : Log} → answered (shown a) ≡ answered (shown b) → a ≡ b
  shown_injective e = cc

  answer-reply : (a : Answer Log) (w : World) → (run (answer a) w).0 ≡ answered a
  unfolding macros
  answer-reply a w = refl

  log_end-Window :
      (r : LogSelector) (repo : git.Repo) (w : World) (commits : Log)
      → cfg.git_log_limit < 2 ^ 32
      → get_or r.offset 0 < 2 ^ 32
      → (run (log_end r repo) w).0 ≡ answered (shown commits)
      → (start : Option git.Oid) × Starts repo r.revision start × Window r repo start commits
  log_end-Window r repo w commits small small' h =
      let g =
        bind-Went IsShown _ _ w w (unless_ok-Careful IsShown (git.has_revwalk repo) _ λ h. h)
          ((unless_ok-Reads (git.has_revwalk repo) _).at w) (IsShown-of commits h) in
      let h' = sym (ap (λ x. x.0) g.on) ∙ h in
      let k =
        bind-Went IsShown _ _ w w (walk_start-Careful repo r.revision)
          (walk_start-Reads repo r.revision w) (IsShown-of commits h') in
      let h2 = sym (ap (λ x. x.0) k.on) ∙ h' in
      let e = shown_injective (sym h2 ∙ answer-reply _ w) in
      (
        k.value,
        walk_start-Starts repo r.revision w k.value k.by,
        e
            ∙ log_loop-window host cfg git repo (log_limit host cfg git r.limit) (get_or r.offset 0)
                (git.revwalk repo k.value) (omega (arith, log_limit-le host cfg git r.limit))
                small',
      )

  Window-length :
      (r : LogSelector) (repo : git.Repo) (start : Option git.Oid) (commits : Log)
      → Window r repo start commits
      → length commits ≤ cfg.git_log_limit
  Window-length r repo start commits e = rw e (
      le_trans
        (length-window host cfg git repo (log_limit host cfg git r.limit) (get_or r.offset 0)
          (git.revwalk repo start))
        (log_limit-le host cfg git r.limit))

  module _ (s : Session) (r : LogSelector) (w : World) (commits : Log) where
    -- Over a well-formed database, if the limits and the offset are numbers of 32 bits: a log that is
    -- shown is that of a repository that the request names and the session may read. It holds the
    -- commits, with the messages, signatures, parents and times that libgit2 has for them, that the walk
    -- gives from the offset on, as many as the limit, which the configuration bounds; the
    -- walk starts at the revision asked for, or at the head. If the sum of the limit and the offset
    -- has more than 32 bits, the log is empty.
    pub repo_get_log-Window :
        IsValid w.db
        → cfg.git_log_limit < 2 ^ 32
        → get_or r.offset 0 < 2 ^ 32
        → (repo_get_log host cfg git s r w).0 ≡ answered (shown commits)
        → (length commits ≤ cfg.git_log_limit)
          × ((p : ℕ) × (repo : git.Repo) × (start : Option git.Oid) × Names repo_get_id r.repo w.db
                p
              × MayReadId s w.db p
              × (git.open_repo (get_repo_path host cfg p) ≡ some repo)
              × Starts repo r.revision start
              × Window r repo start commits)
    unfolding repo_get_log
    repo_get_log-Window v small small' h =
        let g =
          bind-Went IsShown _ _ w w (check_public_repo-Careful s r.repo)
            (check_public_repo-Reads Log s r.repo w) (IsShown-of commits h) in
        let h' = sym (ap (λ x. x.0) g.on) ∙ h in
        let k =
          bind-Went IsShown _ _ w w (opened-Careful g.value) (opened-Reads g.value w)
            (IsShown-of commits h') in
        let (start, starts, window) =
          log_end-Window r k.value w commits small small' (sym (ap (λ x. x.0) k.on) ∙ h') in
        let may = check_public_repo-MayRead s r.repo w g.value v g.by in
        (
          Window-length r k.value start commits window,
          (
            g.value,
            k.value,
            start,
            may.0,
            may.1,
            opened-next g.value w k.value k.by,
            starts,
            window,
          ),
        )
