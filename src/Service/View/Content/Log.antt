-- ===== src/Service/View/Content/Log.antt =====
-- The window of the log that `repo_get_log` shows.
use scissy.Base.{
  ℕ, zero, suc, ◌+◌, ◌%◌, ◌^◌, ◌≤◌, ◌<◌, ◌≡◌, refl, ap, true, false, Option, none, some, List, [],
  ◌∷◌, ◌*◌, map, arith, Bool-cases, inl, inr, ltb, if◌then◌else◌,
}
use scissy.Pb.Git.{GitCommit, GitSignature}
use scissy.Git.{Git, Signature}
use scissy.Host.{Host}
use scissy.Config.{Config}
use scissy.Service.View.Content.{copy_commit, copy_signature, log_limit, log_loop}

module _ {A : Type 0} where
  abbrev pub take : ℕ → List A → List A
  take zero xs = []
  take (suc n) [] = []
  take (suc n) (x ∷ xs) = x ∷ take n xs

  abbrev pub drop : ℕ → List A → List A
  drop zero xs = xs
  drop (suc n) [] = []
  drop (suc n) (x ∷ xs) = drop n xs

  abbrev pub length : List A → ℕ
  length [] = 0
  length (x ∷ xs) = suc (length xs)

module _ (host : Host) (cfg : Config) (git : Git) (repo : git.Repo) where
  -- A commit as it is to be shown; times are in milliseconds, of 64 bits, with the offset as it is.
  abbrev pub shown_signature : Signature → GitSignature
  shown_signature sig = record {
    name = sig.name;
    email = sig.email;
    time = (sig.time * 1000 + sig.offset) % 2 ^ 64;
  }

  abbrev pub shown_commit : git.Commit → GitCommit
  shown_commit c = record {
    id = git.oid_text (git.commit_id c);
    parents_id = map git.oid_text (git.parents c);
    msg = git.message c;
    time = (git.commit_time c * 1000 + git.time_offset c) % 2 ^ 64;
    commiter = shown_signature (git.committer c);
    author = shown_signature (git.author c);
    tree_id = git.oid_text (git.commit_tree_id c);
  }

  abbrev add : Option git.Commit → List GitCommit → List GitCommit
  add none commits = commits
  add (some c) commits = shown_commit c ∷ commits

  -- The copies of the commits that can be read.
  pub copies : List git.Oid → List GitCommit
  copies [] = []
  copies (oid ∷ walk) = add (git.commit repo oid) (copies walk)

  -- Within the window: `n` commits are left to show.
  log_loop-take :
      (n bound offset i : ℕ) (walk : List git.Oid)
      → offset ≤ i
      → i + n ≡ bound
      → log_loop host cfg git repo bound offset i walk ≡ copies (take n walk)
  unfolding log_loop copies copy_commit copy_signature
  log_loop-take zero bound offset i [] le e = refl
  log_loop-take (suc n) bound offset i [] le e = refl
  log_loop-take zero bound offset i (oid ∷ walk) le e =
      let t : ltb i bound ≡ false = ground arith in rw t refl
  log_loop-take (suc n) bound offset i (oid ∷ walk) le e =
      let t : ltb i bound ≡ true = ground arith in
      let f : ltb i offset ≡ false = ground arith in
      rw (t, f)
        (ap (add (git.commit repo oid))
          (log_loop-take n bound offset (i + 1) walk (omega arith) (omega arith)))

  -- Before the window: `k` commits are to be skipped.
  log_loop-drop :
      (k n bound offset i : ℕ) (walk : List git.Oid)
      → i + k ≡ offset
      → offset + n ≡ bound
      → log_loop host cfg git repo bound offset i walk ≡ copies (take n (drop k walk))
  unfolding log_loop copies copy_commit copy_signature
  log_loop-drop zero n bound offset i walk e b =
      log_loop-take n bound offset i walk (omega arith) (omega arith)
  log_loop-drop (suc k) zero bound offset i [] e b = refl
  log_loop-drop (suc k) (suc n) bound offset i [] e b = refl
  log_loop-drop (suc k) n bound offset i (oid ∷ walk) e b =
      let t : ltb i bound ≡ true = ground arith in
      let f : ltb i offset ≡ true = ground arith in
      rw (t, f) (log_loop-drop k n bound offset (i + 1) walk (omega arith) b)

  -- A bound before the window shows nothing.
  log_loop_empty :
      (bound offset i : ℕ) (walk : List git.Oid)
      → bound ≤ offset
      → log_loop host cfg git repo bound offset i walk ≡ []
  unfolding log_loop
  log_loop_empty bound offset i [] le = refl
  log_loop_empty bound offset i (oid ∷ walk) le =
      ground (arith, log_loop_empty bound offset (i + 1) walk le)

  -- The window, and none of it if the bound wraps round.
  pub log_loop-window :
      (limit offset : ℕ) (walk : List git.Oid)
      → limit < 2 ^ 32
      → offset < 2 ^ 32
      → log_loop host cfg git repo ((limit + offset) % 2 ^ 32) offset 0 walk
        ≡ (if ltb (limit + offset) (2 ^ 32) then copies (take limit (drop offset walk)) else [])
  log_loop-window limit offset walk l o = elim (Bool-cases (ltb (limit + offset) (2 ^ 32))) [
    | inl t ↦
        let small : (limit + offset) % 2 ^ 32 ≡ offset + limit = ground arith in
        rw (t, small) (log_loop-drop offset limit (offset + limit) offset 0 walk (omega arith) refl)
    | inr f ↦ rw f (log_loop_empty ((limit + offset) % 2 ^ 32) offset 0 walk (ground arith))
  ]

  length-copies : (walk : List git.Oid) → length (copies walk) ≤ length walk
  unfolding copies
  length-copies [] = omega arith
  length-copies (oid ∷ walk) = ground (arith, length-copies walk)

  length-take : (n : ℕ) (xs : List git.Oid) → length (take n xs) ≤ n
  length-take zero xs = omega arith
  length-take (suc n) [] = omega arith
  length-take (suc n) (x ∷ xs) = omega (arith, length-take n xs)

  pub length-window :
      (limit offset : ℕ) (walk : List git.Oid)
      → length
          (if ltb (limit + offset) (2 ^ 32) then copies (take limit (drop offset walk)) else [])
        ≤ limit
  length-window limit offset walk =
      ground
        (arith, length-copies (take limit (drop offset walk)), length-take limit (drop offset walk))

pub log_limit-le :
    (host : Host) (cfg : Config) (git : Git) (limit : Option ℕ)
    → log_limit host cfg git limit ≤ cfg.git_log_limit
log_limit-le host cfg git none = omega arith
log_limit-le host cfg git (some limit) = ground arith
