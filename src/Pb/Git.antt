-- ===== src/Pb/Git.antt =====
-- The messages of scissy/service.proto that the handlers on a repository's content exchange.
use scissy.Base.{ℕ, Bool, Option, List}
use scissy.Base.Bytes.{Bytes}
use scissy.Pb.{Selector}

pub record CommitSelector : Type 0 where
  pub repo : Selector
  pub revision : Bytes

pub record LogSelector : Type 0 where
  pub repo : Selector
  pub revision : Option Bytes
  pub limit : Option ℕ
  pub offset : Option ℕ

pub record TreeSelector : Type 0 where
  pub repo : Selector
  pub revision : Bytes
  pub directory : Bytes

pub record BlobSelector : Type 0 where
  pub repo : Selector
  pub revision : Bytes
  pub path : Bytes

pub record DiffSelector : Type 0 where
  pub repo : Selector
  pub revision_old : Option Bytes
  pub revision_new : Bytes

pub record GitSignature : Type 0 where
  pub name : Bytes
  pub email : Bytes
  pub time : ℕ

pub record GitCommit : Type 0 where
  pub id : Bytes
  pub parents_id : List Bytes
  pub msg : Bytes
  pub time : ℕ
  pub commiter : GitSignature
  pub author : GitSignature
  pub tree_id : Bytes

pub record GitTreeEntry : Type 0 where
  pub name : Bytes
  pub id : Bytes
  pub type : ℕ
  pub mode : ℕ

pub record GitBlob : Type 0 where
  pub is_binary : Bool
  pub contents : Option Bytes
  pub content_type : Bytes

pub record GitTag : Type 0 where
  pub name : Bytes
  pub revision : Bytes
