-- ===== src/Shell/Quote.antt =====
-- The commands of a git client come through `parse_cmd` as they were meant.
use scissy.Base.{
  ◌≡◌, refl, ◌∙◌, ap, inl, inr, true, false, ◌||◌, some, [], ◌∷◌, ◌++◌, ◌==◌, arith, Bool-cases,
  if◌then◌else◌,
}
use scissy.Base.Bytes.{Bytes}
use scissy.Shell.{
  Action, git_upload_pack, git_receive_pack, git_upload_archive, unquote, upload_pack,
  upload_archive, receive_pack, parse_cmd,
}

-- How a git client quotes an argument for the remote shell (`sq_quote`): in quotes, with each quote
-- and each exclamation mark outside of them, behind a backslash.
sq_escape : Bytes → Bytes
sq_escape [] = b'\'' ∷ []
sq_escape (c ∷ s) =
    let rest = sq_escape s in
    if c == b'\'' || c == b'!' then b'\'' ∷ b'\\' ∷ c ∷ b'\'' ∷ rest else c ∷ rest

pub sq_quote : Bytes → Bytes
unfolding sq_escape
sq_quote s = b'\'' ∷ sq_escape s

-- The command for an action on the repository of that name.
pub command : Action → Bytes → Bytes
unfolding sq_quote
command git_upload_pack name = upload_pack ++ sq_quote name
command git_receive_pack name = receive_pack ++ sq_quote name
command git_upload_archive name = upload_archive ++ sq_quote name

-- A quote opens a quoted part.
unquote-quote : (s : Bytes) → unquote false (b'\'' ∷ s) ≡ unquote true s
unfolding unquote
unquote-quote [] = refl
unquote-quote (d ∷ s) = refl

unquote-sq_escape : (s : Bytes) → unquote true (sq_escape s) ≡ s
unfolding unquote sq_escape
unquote-sq_escape [] = refl
unquote-sq_escape (c ∷ s) = elim (Bool-cases (c == b'\'' || c == b'!')) [
  | inl special ↦ rw special (ap (λ t. c ∷ t) (unquote-quote (sq_escape s) ∙ unquote-sq_escape s))
  | inr plain ↦
      let p : c == b'\'' ≡ false = ground arith in
      rw (plain, p) (ap (λ t. c ∷ t) (unquote-sq_escape s))
]

unquote-sq_quote : (s : Bytes) → unquote false (sq_quote s) ≡ s
unfolding sq_quote
unquote-sq_quote s = unquote-quote (sq_escape s) ∙ unquote-sq_escape s

-- A client's command for an action on a repository, quoted as git quotes it, is parsed as that action
-- and that name, whatever bytes the name holds.
pub parse_cmd-command :
    (action : Action) (name : Bytes) → parse_cmd (command action name) ≡ some (action, name)
unfolding parse_cmd command
parse_cmd-command git_upload_pack name = ap (λ s. some (git_upload_pack, s)) (unquote-sq_quote name)
parse_cmd-command git_receive_pack name =
    ap (λ s. some (git_receive_pack, s)) (unquote-sq_quote name)
parse_cmd-command git_upload_archive name =
    ap (λ s. some (git_upload_archive, s)) (unquote-sq_quote name)
