-- ===== src/Archive/Public.antt =====
-- The archives of a public repository.
use scissy.Base.{
  ℕ, ◌<◌, ◌^◌, ◌≡◌, ◌≢◌, ◌⊎◌, refl, ap, ◌∙◌, inl, inr, true, false, none, some, List, [], ◌∷◌, ◌++◌,
  map, Option-cases,
}
use scissy.Base.Bytes.{Bytes, codes, bytes_eq}
use scissy.Base.Rows.{All}
use scissy.Base.Rows.Member.{In, In-All, map-In}
use scissy.Pb.{k_reader}
use scissy.Git.{Git}
use scissy.Host.{Host}
use scissy.Config.{Config}
use scissy.Schema.{Database}
use scissy.Repositories.{get_repo_path}
use scissy.Db.{repo_is_public}
use scissy.Session.{Cookies, session}
use scissy.Access.{access_check_repo}
use scissy.Archive.{
  Location, failure, archive, not_found, formats, all_digits, number_from, has_slash, Filter, gzip,
  bzip2, xz, lzma, Setup, gnutar, cpio, zip, iso9660, setup_of, handle, archive_of,
}
use scissy.Archive.Parse.{location}
use scissy.Archive.Handle.{handle-location}

-- How an archive is written, for each ending of a location: a container, which for two of them is
-- compressed with one of four filters.
abbrev pub filters : List (Bytes × Filter)
filters = (codes "gz", gzip) ∷ (codes "bz2", bzip2) ∷ (codes "xz", xz) ∷ (codes "lzma", lzma) ∷ []

abbrev pub tars : Bytes × Filter → Bytes × Setup
tars r = (
  codes "tar." ++ r.0,
  record { content_type = codes "application/x-gtar"; filter = some r.1; container = gnutar },
)

abbrev pub cpios : Bytes × Filter → Bytes × Setup
cpios r = (
  codes "cpio." ++ r.0,
  record { content_type = codes "application/x-cpio"; filter = some r.1; container = cpio },
)

abbrev pub others : List (Bytes × Setup)
others =
    (codes "zip", record { content_type = codes "application/zip"; filter = none; container = zip })
    ∷ (
      codes "iso",
      record {
        content_type = codes "application/x-iso9660-image";
        filter = none;
        container = iso9660;
      },
    )
    ∷ []

abbrev setups : List (Bytes × Setup)
setups = map tars filters ++ (map cpios filters ++ others)

abbrev pub WrittenAs : Bytes → Setup → Type 0
WrittenAs format setup = In (format, setup) setups

setups-All : All (λ r. setup_of r.0 ≡ some r.1) setups
unfolding setup_of bytes_eq
setups-All = (refl, (refl, (refl, (refl, (refl, (refl, (refl, (refl, (refl, (refl, tt))))))))))

WrittenAs-setup_of :
    (format : Bytes) (setup : Setup) → WrittenAs format setup → setup_of format ≡ some setup
WrittenAs-setup_of format setup i =
    In-All (λ r. setup_of r.0 ≡ some r.1) (format, setup) setups setups-All i

formats-setups : (format : Bytes) → In format formats → (setup : Setup) × WrittenAs format setup
formats-setups format i =
    let ((f, setup), k, e) = map-In (λ r. r.0) format setups i in (setup, rw e k)

public_check :
    (cookies : Cookies) (d : Database) (p : ℕ)
    → repo_is_public p d ≡ some true
    → access_check_repo (session cookies d) p k_reader d ≡ true
unfolding access_check_repo
public_check cookies d p e = rw e refl

module _ (host : Host) (cfg : Config) (git : Git) where
  open git use {Repo, Oid, Commit, Tree}

  -- The tree that libgit2 finds at a revision of a repository.
  pub record TreeAt (p : ℕ) (revision : Bytes) (tree : Tree) : Type 0 where
    pub repo : Repo
    pub oid : Oid
    pub commit : Commit
    pub opened : git.open_repo (get_repo_path host cfg p) ≡ some repo
    pub named : git.reference_to_oid repo revision ≡ some oid
    pub found : git.commit repo oid ≡ some commit
    pub tree_there : git.tree repo (git.commit_tree_id commit) ≡ some tree

  module _ (cookies : Cookies) (d : Database) (l : Location)
      (is_public : repo_is_public l.repo_id d ≡ some true) where
    TreeAt-archive :
        (tree : Tree)
        → TreeAt l.repo_id l.revision tree
        → archive_of host cfg git cookies d l
          ≡ archive (setup_of l.format) tree (l.dir ++ codes "/")
    unfolding archive_of
    TreeAt-archive tree t =
        rw (public_check cookies d l.repo_id is_public, t.opened, t.named, t.found, t.tree_there)
          refl

    -- It is found, or the answer is that it is not.
    archive_of-cases :
        ((tree : Tree) × TreeAt l.repo_id l.revision tree)
        ⊎ (archive_of host cfg git cookies d l ≡ failure not_found)
    unfolding archive_of
    archive_of-cases =
        let k = public_check cookies d l.repo_id is_public in
        elim (Option-cases (git.open_repo (get_repo_path host cfg l.repo_id))) [
          | inl e ↦ inr (rw (k, e) refl)
          | inr (repo, e) ↦ elim (Option-cases (git.reference_to_oid repo l.revision)) [
            | inl f ↦ inr (rw (k, e, f) refl)
            | inr (oid, f) ↦ elim (Option-cases (git.commit repo oid)) [
              | inl g ↦ inr (rw (k, e, f, g) refl)
              | inr (commit, g) ↦ elim (Option-cases (git.tree repo (git.commit_tree_id commit))) [
                | inl h ↦ inr (rw (k, e, f, g, h) refl)
                | inr (tree, h) ↦ inl (
                  tree,
                  record {
                    repo = repo;
                    oid = oid;
                    commit = commit;
                    opened = e;
                    named = f;
                    found = g;
                    tree_there = h;
                  },
                )
              ]
            ]
          ]
        ]

  module _ (cookies : Cookies) (d : Database) (number revision dir format : Bytes)
      (number_IsGiven : number ≢ []) (number_IsDigits : all_digits number ≡ true)
      (number_small : number_from 0 number < 2 ^ 63) (revision_IsGiven : revision ≢ [])
      (revision_IsFlat : has_slash revision ≡ false) (dir_IsGiven : dir ≢ [])
      (dir_IsFlat : has_slash dir ≡ false) (format-In : In format formats) where
    abbrev l : Location
    l = record { repo_id = number_from 0 number; revision = revision; dir = dir; format = format }

    parsed :
        handle host cfg git cookies (location number revision dir format) d
        ≡ archive_of host cfg git cookies d l
    parsed =
        handle-location host cfg git cookies d number revision dir format number_IsGiven
          number_IsDigits number_small revision_IsGiven revision_IsFlat dir_IsGiven dir_IsFlat
          format-In

    -- To everyone who asks for a written location of a public repository either the archive of the tree
    -- at the revision is sent, in the container and with the filter that the location's ending stands
    -- for, under the name before the ending; or no such tree is found, and that is the answer.
    pub handle-public :
        repo_is_public (number_from 0 number) d ≡ some true
        → ((setup : Setup) × (tree : Tree) × WrittenAs format setup
            × TreeAt (number_from 0 number) revision tree
            × (handle host cfg git cookies (location number revision dir format) d
                ≡ archive (some setup) tree (dir ++ codes "/")))
          ⊎ (((tree : Tree) → ¬ TreeAt (number_from 0 number) revision tree)
              × (handle host cfg git cookies (location number revision dir format) d
                  ≡ failure not_found))
    handle-public is_public =
        let (setup, written) = formats-setups format format-In in
        let set = WrittenAs-setup_of format setup written in
        elim (archive_of-cases cookies d l is_public) [
          | inl (tree, t) ↦ inl (
            setup,
            tree,
            written,
            t,
            parsed
                ∙ TreeAt-archive cookies d l is_public tree t
                ∙ ap (λ x. archive x tree (dir ++ codes "/")) set,
          )
          | inr e ↦
              inr
                (λ tree t. absurd (cc (e, TreeAt-archive cookies d l is_public tree t)), parsed ∙ e)
        ]
