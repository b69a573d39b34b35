-- ===== src/Shell/Exec.antt =====
-- From the client's command to the program that scissy-shell executes.
use scissy.Base.{ℕ, ◌≡◌, sym, ap, ◌∙◌, ◌↔◌, inl, inr, Option, none, some, Option-cases}
use scissy.Base.Bytes.{Bytes}
use scissy.Pb.{ShellStatus}
use scissy.Host.{Host}
use scissy.Config.{Config}
use scissy.Schema.{Database}
use scissy.Schema.Valid.{IsValid}
use scissy.Db.{repo_get_id}
use scissy.Repositories.{get_repo_path}
use scissy.Service.Shell.{shell_control}
use scissy.Shell.{Action, check_acl, program, exec_of, main}
use scissy.Shell.Quote.{command, parse_cmd-command}
use scissy.Shell.Acl.{MayDo, check_acl-MayDo}

main-check_acl :
    (call : Bytes → Option ShellStatus) (action : Action) (name : Bytes)
    → main call (command action name) ≡ exec_of action (check_acl action (call name))
unfolding main
main-check_acl call action name = rw (parse_cmd-command action name)

exec_of-some :
    (action : Action) (o : Option Bytes) (path : Bytes)
    → (exec_of action o ≡ some (program action, path)) ↔ (o ≡ some path)
exec_of-some action none path = (λ h. cc, λ h. cc)
exec_of-some action (some q) path = (λ h. cc, λ h. cc)

module _ (host : Host) (cfg : Config) (d : Database) (v : IsValid d) (user_id : ℕ) (action : Action)
    (name : Bytes) where
  -- The call of `shellControl` over the server's socket.
  abbrev pub server : Bytes → Option ShellStatus
  server repo_name =
      some (shell_control host cfg (record { user_id = user_id; repo_name = repo_name }) d)

  -- When a git client asks for an action on a repository, quoting the name as git does, scissy-shell,
  -- over a server with a well-formed database, executes the action's program on a path exactly if a
  -- repository has that name, the path is its path, and the user may take that action on it: as an
  -- administrator, to read a public repository, or by a role that the database grants, at least reader
  -- to read and at least writer to push.
  pub main-MayDo :
      (path : Bytes)
      → (main server (command action name) ≡ some (program action, path)) ↔ (
          (p : ℕ) × (repo_get_id name d ≡ some p)
          × (path ≡ get_repo_path host cfg p)
          × MayDo d p user_id action)
  main-MayDo path =
      let e = main-check_acl server action name in
      let f = exec_of-some action (check_acl action (server name)) path in
      let g =
        check_acl-MayDo host cfg d v action (record { user_id = user_id; repo_name = name }) path in
      (λ h. g.0 (f.0 (sym e ∙ h)), λ h. e ∙ f.1 (g.1 h))

  -- Where no repository of the name is one on which the user may act, nothing is executed.
  pub main_refused :
      ((p : ℕ) → repo_get_id name d ≡ some p → ¬ MayDo d p user_id action)
      → main server (command action name) ≡ none
  main_refused never =
      let e = main-check_acl server action name in
      elim (Option-cases (check_acl action (server name))) [
        | inl k ↦ e ∙ ap (exec_of action) k
        | inr (path, k) ↦
            let (p, n, q, m) =
              (check_acl-MayDo host cfg d v action (record { user_id = user_id; repo_name = name })
                  path).0
                k in
            absurd (never p n m)
      ]
