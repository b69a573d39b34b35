-- ===== src/Archive.antt =====
-- scissy/archive-handler.cc: a revision of a repository as an archive.
pub mod Parse
pub mod Handle
pub mod Sound
pub mod Public
use mathlib.Core.List.{reverse}
use scissy.Base.{
  ℕ, ◌+◌, ◌*◌, ◌-◌, ◌^◌, Bool, true, false, not, ◌&&◌, ◌||◌, Option, none, some, List, [], ◌∷◌,
  ◌++◌, leb, ltb, ◌==◌, if◌then◌else◌,
}
use scissy.Base.Bytes.{Bytes, codes, bytes_eq}
use scissy.Base.Rows.{any}
use scissy.Pb.{k_reader}
use scissy.Git.{Git}
use scissy.Host.{Host}
use scissy.Config.{Config}
use scissy.Schema.{Database}
use scissy.Repositories.{get_repo_path}
use scissy.Session.{Session, Cookies, session}
use scissy.Access.{access_check_repo}
use scissy.Shell.{after_prefix}

-- What the groups of the pattern capture.
pub record Location : Type 0 where
  pub repo_id : ℕ
  pub revision : Bytes
  pub dir : Bytes
  pub format : Bytes

abbrev pub prefix : Bytes
prefix = codes "/repo/archive/"

-- `\d`
abbrev pub is_digit : ℕ → Bool
is_digit c = leb b'0' c && leb c b'9'

unfoldable pub all_digits : Bytes → Bool
all_digits [] = true
all_digits (c ∷ s) = is_digit c && all_digits s

-- The number that digits spell, after those that spell `n`.
unfoldable pub number_from : ℕ → Bytes → ℕ
number_from n [] = n
number_from n (c ∷ s) = number_from (n * 10 + (c - b'0')) s

abbrev is_empty : Bytes → Bool
is_empty [] = true
is_empty _ = false

-- `(\d+)` into a number of 64 bits with a sign: a text that is out of range does not match.
unfoldable pub parse_id : Bytes → Option ℕ
unfolding all_digits number_from
parse_id s =
    if not (is_empty s) && (all_digits s && ltb (number_from 0 s) (2 ^ 63))
    then some (number_from 0 s)
    else none

-- What precedes the first slash, and what follows it.
unfoldable pub split_slash : Bytes → Option (Bytes × Bytes)
split_slash [] = none
split_slash (c ∷ s) =
    let rest = split_slash s in
    if c == b'/' then some ([], s) else elim rest [ none ↦ none | some (a, b) ↦ some (c ∷ a, b) ]

unfoldable pub has_slash : Bytes → Bool
has_slash s = any (λ c. c == b'/') s

-- `([^/]+)\.(…)` of a text without a slash, read from its end: the name before the dot, reversed. The
-- texts of the formats, each after a dot, are none a suffix of another, so at most one fits.
abbrev named : Bytes → Option Bytes → Option (Bytes × Bytes)
named format none = none
named format (some []) = none
named format (some (c ∷ s)) = some (reverse (c ∷ s), format)

abbrev pub suffix : Bytes → Bytes
suffix format = reverse (b'.' ∷ format)

unfoldable pub split_format : List Bytes → Bytes → Option (Bytes × Bytes)
unfolding after_prefix
split_format [] backwards = none
split_format (f ∷ fs) backwards =
    let rest = split_format fs backwards in
    elim (named f (after_prefix (suffix f) backwards)) [ some r ↦ some r | none ↦ rest ]

abbrev pub formats : List Bytes
formats =
    codes "tar.gz"
    ∷ codes "tar.bz2"
    ∷ codes "tar.xz"
    ∷ codes "tar.lzma"
    ∷ codes "cpio.gz"
    ∷ codes "cpio.bz2"
    ∷ codes "cpio.xz"
    ∷ codes "cpio.lzma"
    ∷ codes "zip"
    ∷ codes "iso"
    ∷ []

abbrev with_format : ℕ → Bytes → Option (Bytes × Bytes) → Option Location
with_format repo_id revision none = none
with_format repo_id revision (some (dir, format)) =
    some (record { repo_id = repo_id; revision = revision; dir = dir; format = format })

-- The last part of the location.
unfoldable pub parse_file : ℕ → Bytes → Bytes → Option Location
unfolding has_slash split_format
parse_file repo_id revision file =
    if is_empty revision || has_slash file
    then none
    else with_format repo_id revision (split_format formats (reverse file))

abbrev with_file : ℕ → Option (Bytes × Bytes) → Option Location
with_file repo_id none = none
with_file repo_id (some (revision, file)) = parse_file repo_id revision file

abbrev with_id : Option ℕ → Bytes → Option Location
with_id none rest = none
with_id (some repo_id) rest = with_file repo_id (split_slash rest)

abbrev with_number : Option (Bytes × Bytes) → Option Location
with_number none = none
with_number (some (number, rest)) = with_id (parse_id number) rest

abbrev with_prefix : Option Bytes → Option Location
with_prefix none = none
with_prefix (some rest) = with_number (split_slash rest)

-- `RE2::FullMatch`.
unfoldable pub parse_location : Bytes → Option Location
unfolding after_prefix split_slash parse_id parse_file
parse_location s = with_prefix (after_prefix prefix s)

pub data Filter : Type 0 where
  gzip bzip2 xz lzma : Filter

pub data Container : Type 0 where
  gnutar cpio zip iso9660 : Container

-- How the archive is written: what the chain of tests sets.
pub record Setup : Type 0 where
  pub content_type : Bytes
  pub filter : Option Filter
  pub container : Container

abbrev tar_with : Filter → Setup
tar_with f = record {
  content_type = codes "application/x-gtar";
  filter = some f;
  container = gnutar;
}

abbrev cpio_with : Filter → Setup
cpio_with f = record {
  content_type = codes "application/x-cpio";
  filter = some f;
  container = cpio;
}

unfoldable pub setup_of : Bytes → Option Setup
setup_of format =
    if bytes_eq format (codes "tar.xz")
    then some (tar_with xz)
    else if bytes_eq format (codes "tar.gz")
    then some (tar_with gzip)
    else if bytes_eq format (codes "tar.bz2")
    then some (tar_with bzip2)
    else if bytes_eq format (codes "tar.lzma")
    then some (tar_with lzma)
    else if bytes_eq format (codes "cpio.xz")
    then some (cpio_with xz)
    else if bytes_eq format (codes "cpio.gz")
    then some (cpio_with gzip)
    else if bytes_eq format (codes "cpio.bz2")
    then some (cpio_with bzip2)
    else if bytes_eq format (codes "cpio.lzma")
    then some (cpio_with lzma)
    else if bytes_eq format (codes "zip")
    then some (record { content_type = codes "application/zip"; filter = none; container = zip })
    else if bytes_eq format (codes "iso")
    then some (record {
      content_type = codes "application/x-iso9660-image";
      filter = none;
      container = iso9660;
    })
    else none

pub data ErrorStatus : Type 0 where
  bad_request forbidden not_found : ErrorStatus

-- The response: an error, or the archive of a tree, set up so, under a prefix.
pub data ArchiveReply (Tree : Type 0) : Type 0 where
  failure : ErrorStatus → ArchiveReply Tree
  archive : Option Setup → Tree → Bytes → ArchiveReply Tree

module _ (host : Host) (cfg : Config) (git : Git) where
  open git use {Repo, Oid, Commit, Tree}

  abbrev found_tree : Location → Option Tree → ArchiveReply Tree
  found_tree l none = failure not_found
  found_tree l (some tree) = archive (setup_of l.format) tree (l.dir ++ codes "/")

  abbrev found_commit : Location → Repo → Option Commit → ArchiveReply Tree
  found_commit l repo none = failure not_found
  found_commit l repo (some commit) = found_tree l (git.tree repo (git.commit_tree_id commit))

  abbrev found_oid : Location → Repo → Option Oid → ArchiveReply Tree
  found_oid l repo none = failure not_found
  found_oid l repo (some oid) = found_commit l repo (git.commit repo oid)

  abbrev found_repo : Location → Option Repo → ArchiveReply Tree
  found_repo l none = failure not_found
  found_repo l (some repo) = found_oid l repo (git.reference_to_oid repo l.revision)

  -- After the location was parsed.
  unfoldable pub archive_of : Cookies → Database → Location → ArchiveReply Tree
  unfolding setup_of
  archive_of cookies d l =
      if access_check_repo (session cookies d) l.repo_id k_reader d
      then found_repo l (git.open_repo (get_repo_path host cfg l.repo_id))
      else failure forbidden

  abbrev located : Cookies → Database → Option Location → ArchiveReply Tree
  located cookies d none = failure bad_request
  located cookies d (some l) = archive_of cookies d l

  -- `ArchiveHandler::handle`
  unfoldable pub handle : Cookies → Bytes → Database → ArchiveReply Tree
  unfolding archive_of
  handle cookies location d = located cookies d (parse_location location)
