-- ===== src/Tests/Keys.antt =====
-- The file of authorized keys, on the sample.
use scissy.Base.{ℕ, ◌≡◌, refl, [], ◌∷◌, ◌++◌, map, arith}
use scissy.Base.Bytes.{codes}
use scissy.Base.Rows.{All}
use scissy.Schema.{UserSshKey}
use scissy.World.{World}
use scissy.Keys.{forced_command, gen_authorized_keys}
use scissy.Keys.Lines.{
  lines, IsOneLine, literal-IsOneLine, expected_line, lines-gen_authorized_keys, key_injects_line,
}
use scissy.Tests.Sample.{host, cfg, world, runs}

socket_IsOneLine : IsOneLine cfg.socket
unfolding runs
socket_IsOneLine = literal-IsOneLine cfg.socket refl

decimal-IsOneLine : (n : ℕ) → IsOneLine (host.decimal n)
decimal-IsOneLine n = (ground arith, tt)

keys-IsOneLine : All (λ r. IsOneLine r.key) world.db.users_ssh_keys
unfolding runs
keys-IsOneLine = (literal-IsOneLine (codes "AAA") refl, (literal-IsOneLine (codes "BBB") refl, tt))

openable : world.key_file_faults ≡ []
unfolding runs
openable = refl

lines-gen_authorized_keys_example :
    lines (gen_authorized_keys host cfg world).1.authorized_keys
    ≡ map (expected_line host cfg) world.db.users_ssh_keys
lines-gen_authorized_keys_example =
    lines-gen_authorized_keys host cfg socket_IsOneLine decimal-IsOneLine world openable
      keys-IsOneLine

-- A key in two lines.
abbrev two_lines : UserSshKey
two_lines = record {
  ssh_key_id = 1;
  user_id = 1;
  key_type = 0;
  key = codes "A" ++ b'\n' ∷ codes "ssh-rsa B";
  desc = [];
  ts_created = 0;
}

abbrev injected : World
injected = record world { db = record world.db { users_ssh_keys = two_lines ∷ [] } }

injected_openable : injected.key_file_faults ≡ []
unfolding runs
injected_openable = refl

first-IsOneLine : IsOneLine (codes "A")
unfolding runs
first-IsOneLine = literal-IsOneLine (codes "A") refl

second-IsOneLine : IsOneLine (codes "ssh-rsa B")
unfolding runs
second-IsOneLine = literal-IsOneLine (codes "ssh-rsa B") refl

key_injects_line_example :
    lines (gen_authorized_keys host cfg injected).1.authorized_keys
    ≡ (forced_command host cfg two_lines ++ codes "A") ∷ codes "ssh-rsa B" ∷ []
key_injects_line_example =
    key_injects_line host cfg socket_IsOneLine decimal-IsOneLine injected two_lines [] (codes "A")
      (codes "ssh-rsa B") injected_openable refl refl first-IsOneLine second-IsOneLine tt
