-- ===== src/Pb.antt =====
-- The messages of scissy/service.proto that the modelled handlers exchange. An optional field is an
-- `Option`; ids are unsigned here, and a negative id selects the same rows as an unassigned one: none.
pub mod Git
pub mod View
use scissy.Base.{ℕ, Bool, Option, [], leb, String}
use scissy.Base.Bytes.{Bytes}

pub data Status : Type 0 where
  k_succeed k_failed k_invalid_session k_not_implemented : Status
  k_insufficient_right k_not_found k_internal_error k_forbidden : Status

pub data Role : Type 0 where
  k_none k_reader k_writer k_owner : Role

-- The number that stands for a role, in a message and in the database.
abbrev pub role_id : Role → ℕ
role_id k_none = 0
role_id k_reader = 1
role_id k_writer = 2
role_id k_owner = 3

-- `pb::Role_IsValid`.
abbrev pub role_is_valid : ℕ → Bool
role_is_valid n = leb n 3

pub record StatusMsg : Type 0 where
  pub status : Status
  pub msg : Option String

-- `pb::Session`, as the handlers fill it. Its role is a number: it comes from the database by a cast.
pub record PbSession : Type 0 where
  pub user : Bytes
  pub user_id : ℕ
  pub role : ℕ

pub record GroupInfo : Type 0 where
  pub grp : Bytes
  pub size : ℕ
  pub grp_id : ℕ
  pub desc : Bytes
  pub status : Status
  pub msg : Option String

pub record RepoInfo : Type 0 where
  pub status : Status
  pub msg : Option String
  pub id : ℕ
  pub name : Bytes
  pub desc : Bytes
  pub is_public : Bool

abbrev pub group_info_failed : Status → String → GroupInfo
group_info_failed st m = record {
  grp = [];
  size = 0;
  grp_id = 0;
  desc = [];
  status = st;
  msg = Option.some m;
}

abbrev pub repo_info_failed : Status → Option String → RepoInfo
repo_info_failed st m = record {
  status = st;
  msg = m;
  id = 0;
  name = [];
  desc = [];
  is_public = Bool.false;
}

pub record GroupCreate : Type 0 where
  pub grp : Option Bytes
  pub desc : Bytes

-- How a request names a group, a user or a repository: by id, by name, or not at all.
pub record Selector : Type 0 where
  pub id : Option ℕ
  pub name : Option Bytes

pub record GroupAddUser : Type 0 where
  pub grp : Selector
  pub user : Selector
  pub role : Role

pub record GroupRemoveUser : Type 0 where
  pub grp : Selector
  pub user : Selector

pub record RepoCreate : Type 0 where
  pub name : Bytes
  pub desc : Bytes
  pub is_public : Bool

pub record RepoUpdate : Type 0 where
  pub repo : Selector
  pub name : Bytes
  pub desc : Bytes
  pub is_public : Bool

pub record RepoAddUser : Type 0 where
  pub repo : Selector
  pub user : Selector
  pub role : Role

pub record RepoRemoveUser : Type 0 where
  pub repo : Selector
  pub user : Selector

pub record RepoAddGroup : Type 0 where
  pub repo : Selector
  pub grp : Selector
  pub role : Role

pub record RepoRemoveGroup : Type 0 where
  pub repo : Selector
  pub grp : Selector

pub record UserCreate : Type 0 where
  pub user : Bytes
  pub password : Bytes
  pub email : Bytes

pub record UserAuth : Type 0 where
  pub user : Bytes
  pub password : Bytes

pub record SshKey : Type 0 where
  pub type : ℕ
  pub key : Bytes
  pub desc : Option Bytes
  pub key_id : Option ℕ

pub record ShellControl : Type 0 where
  pub user_id : ℕ
  pub repo_name : Bytes

pub record ShellStatus : Type 0 where
  pub status : Status
  pub repo_path : Bytes
  pub role : ℕ
  pub is_public : Bool
  pub is_admin : Bool
