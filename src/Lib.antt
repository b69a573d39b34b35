-- ===== src/Lib.antt =====
-- A model of scissy, a server of git repositories, and what is proved of it.
--
-- The server keeps users, their ssh keys and sign-ins, groups and repositories in an SQL database, git
-- repositories on the disk, and a file of authorized keys for sshd. Handlers of remote calls change
-- these (scissy/service.cc). A git client comes through sshd, which runs scissy-shell
-- (scissy/shell.cc), which asks the server what the user may do.
--
-- State. `World` holds the database, the paths of the git repositories, the file of authorized
-- keys, the time of the request, the faults of the engine to come, and those of the opening of the
-- file of authorized keys (`key_file_faults`). `Schema` has the tables of sql/model.sql as lists of
-- rows, and each statement that the program prepares as a function that returns a code and a new
-- database: primary and unique keys and foreign keys are enforced, deletions cascade. Statements
-- that write may be refused by the engine (`faults`) and then change nothing; statements that only
-- read are taken to succeed. Handlers are actions that may stop early (`Service.Exec`), composed in
-- do blocks in the order of the source.
--
-- Which file models which part, with paths from the repository's root:
--   Pb: the messages of scissy/service.proto
--   Schema, Schema/Users, Schema/Groups, Schema/Repos: sql/model.sql and the statements on it
--   Db: scissy/db.cc; Db/Granted: the roles that its query finds
--   Session: scissy/session.cc, scissy/session-handler.cc, scissy/logout-handler.cc
--   Service: the macros and helpers of scissy/service.cc, such as `SET_REPO_ID` (`set_repo_id`)
--   Service/Users: userCreate, userSetPassword, userAddSshKey, userRemoveSshKey
--   Service/Users/Auth: userAuth, scissy/builtin-authenticator.cc, scissy/process-authenticator.cc
--   Service/Users/SignIn, Service/Users/Register: from these two to the sessions and passwords
--   Service/Groups: groupCreate, groupDelete, groupAddUser, groupRemoveUser; Service/Groups/Create:
--     what a creation leaves
--   Service/Repos: repoCreate, repoUpdate, repoDelete
--   Service/Members: repoAddUser, repoRemoveUser, repoAddGroup, repoRemoveGroup
--   Service/Shell: shellControl
--   Service/View: serviceInfo, userGetSession, userGetSshKeys, groupsList, groupGetInfo,
--     groupListMembers; Service/View/Listing: reposList, repoGetInfo, repoListMembers
--   Service/View/Content: repoListBranches, repoGetCommit, repoGetLog, repoGetTree, repoGetBlob,
--     repoGetPatch, repoGetTags, and scissy/helpers.cc; Service/View/Content/Log: the loop of the log
--   Service/Keeps, Service/Went: what the head of a handler keeps, and how an action that did not
--     stop went on
--   Repositories: scissy/repositories.cc; Repositories/Create, Repositories/Undo: what a creation leaves
--   Keys: scissy/gen-authorized-keys.cc and scissy/ssh-key-type.cc
--   Access: scissy/access.cc
--   Shell: scissy/shell.cc; Shell/Quote: how git quotes; Shell/Acl, Shell/Exec: who may do what
--   Archive: scissy/archive-handler.cc; Archive/Parse, Archive/Sound: its location;
--     Archive/Handle: who is served; Archive/Public: which archive
--   Config: scissy/config.hh; Config/Load: scissy/config.cc and scissy/config.proto
--   Legacy, Legacy/Groups: scissy/role.cc and scissy/groups.cc
--   Start: scissy/main.cc and scissy/root-handler.cc; Start/Serving: when the server serves
--   Server: the requests that change the state, each under the session of its cookies, in
--     sequence; Server/Stable and its children: what is kept by every request if it is by each
--     statement; Server/Valid, Server/Authority: what the requests keep and need;
--     Server/KeyFile: the file of authorized keys, from the start on;
--     Server/Members and its children: what adding and removing members and groups changes, and
--     in Server/Members/Clients for scissy-shell; Server/Repos, Server/Repos/Update: what deleting
--     and updating a repository changes;
--     Server/Reveal: what the handlers that read show, and to whom
--   Server/Threads: the threads of scissy/main.cc, with `Repositories::create` cut at its statements;
--     Server/Threads/Calls, Server/Threads/Prompt, Server/Threads/Race: how a call goes among others
--   Host: what third-party code computes (hashes, encodings, printed numbers, the result of
--     git_repository_init, cracklib, the authentication program), as functions
--   Git: libgit2 and the wrappers of mimosa, as functions on types that are parameters
--   Base: byte strings, Boolean tests, lists of rows, and their order
--   Tests: a small installation, on which the theorems are applied
--
-- Bounds. Texts are lists of bytes. Ids and times are natural numbers; a negative id in a request
-- selects no row, as an id that is not assigned does. The conversion of a user's id to int in
-- userAuth, and the product of the cookies' duration, are of 32 bits (`to_int`, `expiry`). Every loop
-- is a recursion on a list or on a text; there is no fuel.
--
-- Assumptions. git_repository_init creates nothing where it fails; the recursive removal of a
-- directory succeeds. Every insertion sets `last_rowid`: into a table with an integer key to the
-- new id, and into the others to what the engine picks (`rowids`). The file of authorized keys is
-- written anew or, where it cannot be opened, left as it is; a file that was opened can be written,
-- and what becomes of the privileges shows in `key_file_faults` only. The order in which the engine
-- returns rows without `order by` is that of the lists; Db/Granted does not depend on it. Random
-- bytes are arguments of the requests. What a git repository holds does not change while a request
-- reads it. The location of an archive is text that RE2 takes as valid. An aggregate without `group
-- by` has one row, whose other columns are those of a row that the engine picks (`Host.pick_row`);
-- what a null text is fetched as is `Host.null_text`. All threads share one connection, over which
-- the engine runs a statement at a time; `last_rowid` is the connection's.
--
-- Not modelled: the decoding of the messages and of the configuration file, the matching of the
-- routes, and how the servers speak over their sockets, all mimosa's or the system's; the writing of
-- an archive; the interleaving of the statements of two handlers other than creations of repositories,
-- each of which `Server` runs from its beginning to its end;
-- `Groups::getUserRole`, whose query names a column that the table does not have; the migrations of
-- the database; the web client.
pub mod Base
pub mod Pb
pub mod Schema
pub mod World
pub mod Db
pub mod Host
pub mod Git
pub mod Config
pub mod Session
pub mod Service
pub mod Repositories
pub mod Keys
pub mod Access
pub mod Archive
pub mod Legacy
pub mod Shell
pub mod Server
pub mod Start
pub mod Tests
