-- ===== src/Shell.antt =====
-- scissy/shell.cc: the program that sshd runs in the place of the client's command.
pub mod Quote
pub mod Acl
pub mod Exec
use scissy.Base.{
  ℕ, Bool, true, false, ◌&&◌, ◌||◌, Option, none, some, List, [], ◌∷◌, ◌==◌, if◌then◌else◌,
}
use scissy.Base.Bytes.{Bytes, codes}
use scissy.Pb.{Status, k_succeed, ShellStatus}
use scissy.Host.{Host}
use scissy.Config.{Config}
use scissy.Schema.{Database}
use scissy.Service.Shell.{shell_control}

pub data Action : Type 0 where
  git_upload_pack git_receive_pack git_upload_archive : Action

-- `!strncmp(cmd, prefix, strlen(prefix))`, and what follows the prefix.
unfoldable pub after_prefix : Bytes → Bytes → Option Bytes
after_prefix [] cmd = some cmd
after_prefix (p ∷ ps) [] = none
after_prefix (p ∷ ps) (c ∷ cmd) = let rest = after_prefix ps cmd in if p == c then rest else none

-- The loop of `parseCmd` that undoes the quotes, from `in_quote` on. A command is a C string: it holds
-- no zero byte, and ends where the list does.
unfoldable pub unquote : Bool → Bytes → Bytes
unquote in_quote [] = []
unquote true (c ∷ cmd) =
    let closed = unquote false cmd in
    let rest = unquote true cmd in if c == b'\'' then closed else c ∷ rest
unquote false (c ∷ []) = if c == b'\'' || c == b'\\' then [] else c ∷ []
unquote false (c ∷ d ∷ cmd) =
    let opened = unquote true (d ∷ cmd) in
    let escaped = unquote false cmd in
    let rest = unquote false (d ∷ cmd) in
    if c == b'\'' then opened else if c == b'\\' then d ∷ escaped else c ∷ rest

abbrev pub upload_pack : Bytes
upload_pack = codes "git-upload-pack "

abbrev pub upload_archive : Bytes
upload_archive = codes "git-upload-archive "

abbrev pub receive_pack : Bytes
receive_pack = codes "git-receive-pack "

abbrev or_else {ℓ} : {A : Type ℓ} → Option A → Option A → Option A
or_else (some a) o = some a
or_else none o = o

abbrev with_action : Action → Option Bytes → Option (Action × Bytes)
with_action action none = none
with_action action (some cmd) = some (action, unquote false cmd)

unfoldable pub parse_cmd : Bytes → Option (Action × Bytes)
unfolding after_prefix unquote
parse_cmd cmd = or_else (with_action git_upload_pack (after_prefix upload_pack cmd)) (
    or_else (with_action git_upload_archive (after_prefix upload_archive cmd))
      (with_action git_receive_pack (after_prefix receive_pack cmd)))

abbrev pub is_read : Action → Bool
is_read git_receive_pack = false
is_read _ = true

abbrev is_succeed : Status → Bool
is_succeed k_succeed = true
is_succeed _ = false

-- `checkAcl` on the response: the path of the repository, if it returns true. There is no response
-- where the connection fails or the call is canceled.
unfoldable pub check_response : Action → ShellStatus → Option Bytes
check_response action r =
    if is_succeed r.status
    then if r.is_admin
        || (is_read action && (r.is_public || r.role == 1) || (r.role == 2 || r.role == 3))
      then some r.repo_path
      else none
    else none

unfoldable pub check_acl : Action → Option ShellStatus → Option Bytes
unfolding check_response
check_acl action none = none
check_acl action (some response) = check_response action response

-- The entry of `pathes`.
unfoldable pub program : Action → Bytes
program git_upload_pack = codes "git-upload-pack"
program git_receive_pack = codes "git-receive-pack"
program git_upload_archive = codes "git-upload-archive"

abbrev pub exec_of : Action → Option Bytes → Option (Bytes × Bytes)
exec_of action none = none
exec_of action (some repo_path) = some (program action, repo_path)

abbrev main_with : (Bytes → Option ShellStatus) → Option (Action × Bytes) → Option (Bytes × Bytes)
main_with call none = none
main_with call (some (action, repo_name)) = exec_of action (check_acl action (call repo_name))

-- `main`: the program that is executed and its argument, or none where it exits with 1. `call` is the
-- call of `shellControl` for the user that the command line names.
unfoldable pub main : (Bytes → Option ShellStatus) → Bytes → Option (Bytes × Bytes)
unfolding parse_cmd check_acl program
main call cmd = main_with call (parse_cmd cmd)
