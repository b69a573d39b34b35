-- ===== src/Keys.antt =====
-- scissy/ssh-key-type.cc and scissy/gen-authorized-keys.cc.
pub mod Lines
use scissy.Base.{ℕ, Bool, true, false, List, [], ◌∷◌, ◌++◌, ◌==◌, if◌then◌else◌}
use scissy.Base.Bytes.{Bytes, codes}
use scissy.Host.{Host}
use scissy.Config.{Config}
use scissy.Schema.{UserSshKey}
use scissy.World.{World, M}

unfoldable pub ssh_key_type_name : ℕ → Bytes
ssh_key_type_name key_type =
    if key_type == 0
    then codes "ssh-rsa"
    else if key_type == 1
    then codes "ssh-dsa"
    else codes "unknown"

abbrev pub command_text : Bytes
command_text = codes "command=\"scissy-shell -socket "

abbrev pub user_id_text : Bytes
user_id_text = codes " -user-id "

abbrev pub options_text : Bytes
options_text = codes "\",no-port-forwarding,no-pty,no-X11-forwarding "

module _ (host : Host) (cfg : Config) where
  -- What precedes the key on its line: the command that sshd runs whatever the client asks for, and
  -- the options.
  unfoldable pub forced_command : UserSshKey → Bytes
  unfolding ssh_key_type_name
  forced_command r =
      command_text
      ++ (cfg.socket
          ++ (user_id_text
              ++ (host.decimal r.user_id
                  ++ (options_text ++ (ssh_key_type_name r.key_type ++ codes " ")))))

  -- The loop over the rows of `users_ssh_keys`; `std::endl` is a line feed.
  unfoldable pub authorized_keys_of : List UserSshKey → Bytes
  authorized_keys_of [] = []
  authorized_keys_of (r ∷ rows) = (forced_command r ++ r.key) ++ b'\n' ∷ authorized_keys_of rows

  -- The file is opened and written anew. That it could not be opened is not looked at: what is then
  -- written to the stream is lost, and the file stays.
  unfoldable pub open_and_write : List Bool → M (Unit {0})
  open_and_write [] w = (tt, record w { authorized_keys = authorized_keys_of w.db.users_ssh_keys })
  open_and_write (false ∷ fs) w = (
    tt,
    record w { authorized_keys = authorized_keys_of w.db.users_ssh_keys; key_file_faults = fs },
  )
  open_and_write (true ∷ fs) w = (tt, record w { key_file_faults = fs })

  unfoldable pub gen_authorized_keys : M (Unit {0})
  unfolding open_and_write
  gen_authorized_keys w = open_and_write w.key_file_faults w
