-- ===== src/Pb/View.antt =====
-- The messages of scissy/service.proto that the listings send.
use scissy.Base.{ℕ, Bool, Option, List, String}
use scissy.Base.Bytes.{Bytes}
use scissy.Pb.{Status}

-- A response of a handler that only reads: its content, with the status of success, or a status and a
-- message, and then no content is set.
pub data Answer (A : Type 0) : Type 0 where
  shown : A → Answer A
  refused : Status → String → Answer A

-- `GroupInfo`, as the listings fill it.
pub record GroupEntry : Type 0 where
  pub grp : Bytes
  pub grp_id : ℕ
  pub desc : Bytes
  pub size : ℕ

-- `Member`, of a user or of a group. Its role comes from the database by a cast.
pub record Member : Type 0 where
  pub id : ℕ
  pub name : Bytes
  pub role : ℕ

pub record MemberList : Type 0 where
  pub groups : List Member
  pub users : List Member

-- `RepoInfo`, as the listings fill it.
pub record RepoEntry : Type 0 where
  pub id : ℕ
  pub name : Bytes
  pub desc : Bytes
  pub is_public : Bool
  pub last_commit_time : Option ℕ

-- `GroupSelector` and `GroupMemberSelector`, as far as they are read.
pub record GroupSelector : Type 0 where
  pub grp_id : Option ℕ
  pub grp : Option Bytes

-- `Session`, as `userGetSession` fills it: its email is that of a message in which none was set.
pub record SessionInfo : Type 0 where
  pub user : Bytes
  pub email : Bytes
  pub role : ℕ
  pub user_id : ℕ

pub record ServiceInfo : Type 0 where
  pub clone_user : Bytes
  pub clone_host : Bytes
  pub version : Bytes
  pub start_time : ℕ
  pub is_register_enabled : Bool
