-- ===== src/Keys/Lines.antt =====
-- The lines of the file of authorized keys, as sshd reads them.
use mathlib.Core.List.{append-nil, append_assoc}
use scissy.Base.{
  ℕ, zero, suc, arith, ◌≡◌, refl, sym, ap, inl, inr, Bool-cases, ◌∙◌, true, false, List, [], ◌∷◌,
  ◌++◌, map, ◌==◌,
}
use scissy.Base.Bytes.{Bytes, codes}
use scissy.Base.Rows.{any, All, All-of-any}
use scissy.Host.{Host}
use scissy.Config.{Config}
use scissy.Schema.{UserSshKey}
use scissy.World.{World}
use scissy.Keys.{
  ssh_key_type_name, command_text, user_id_text, options_text, forced_command, authorized_keys_of,
  open_and_write, gen_authorized_keys,
}

abbrev unfinished : Bytes → List Bytes
unfinished [] = []
unfinished (c ∷ s) = (c ∷ s) ∷ []

-- A text in lines; `line` is what has been read of the current one.
lines_from : Bytes → Bytes → List Bytes
lines_from line [] = unfinished line
lines_from line (c ∷ s) = elim (c == b'\n') [
  | true ↦ line ∷ lines_from [] s
  | false ↦ lines_from (line ++ c ∷ []) s
]

pub lines : Bytes → List Bytes
unfolding lines_from
lines s = lines_from [] s

-- No byte of the text is a line feed.
abbrev pub IsOneLine : Bytes → Type 0
IsOneLine s = All (λ c. c == b'\n' ≡ false) s

lines_from-append :
    (line s rest : Bytes)
    → IsOneLine s
    → lines_from line (s ++ b'\n' ∷ rest) ≡ (line ++ s) ∷ lines_from [] rest
unfolding lines_from
lines_from-append line [] rest h = rw append-nil
lines_from-append line (c ∷ s) rest h =
    rw (h.0, lines_from) (lines_from-append (line ++ c ∷ []) s rest h.1 ∙ rw append_assoc refl)

-- A line and its line feed are the first line.
lines-append : (s rest : Bytes) → IsOneLine s → lines (s ++ b'\n' ∷ rest) ≡ s ∷ lines rest
unfolding lines
lines-append s rest h = lines_from-append [] s rest h

IsOneLine-append : (s t : Bytes) → IsOneLine s → IsOneLine t → IsOneLine (s ++ t)
IsOneLine-append [] t h k = k
IsOneLine-append (c ∷ s) t h k = (h.0, IsOneLine-append s t h.1 k)

pub literal-IsOneLine : (s : Bytes) → any (λ c. c == b'\n') s ≡ false → IsOneLine s
literal-IsOneLine s h = All-of-any _ s h

ssh_key_type_name-IsOneLine : (n : ℕ) → IsOneLine (ssh_key_type_name n)
unfolding ssh_key_type_name any
ssh_key_type_name-IsOneLine n = elim (Bool-cases (n == 0)) [
  | inl rsa ↦ rw rsa (literal-IsOneLine (codes "ssh-rsa") refl)
  | inr other ↦ elim (Bool-cases (n == 1)) [
    | inl dsa ↦ rw (other, dsa) (literal-IsOneLine (codes "ssh-dsa") refl)
    | inr unknown ↦ rw (other, unknown) (literal-IsOneLine (codes "unknown") refl)
  ]
]

-- Two lines in the place of one.
lines-append_two :
    (c key a b rest : Bytes)
    → key ≡ a ++ b'\n' ∷ b
    → IsOneLine (c ++ a)
    → IsOneLine b
    → lines ((c ++ key) ++ b'\n' ∷ rest) ≡ (c ++ a) ∷ b ∷ lines rest
lines-append_two c key a b rest k h hb =
    ap (λ s. lines ((c ++ s) ++ b'\n' ∷ rest)) k
    ∙ ap (λ s. lines (s ++ b'\n' ∷ rest)) (sym (append_assoc c a (b'\n' ∷ b)))
    ∙ ap lines (append_assoc (c ++ a) (b'\n' ∷ b) (b'\n' ∷ rest))
    ∙ lines-append (c ++ a) (b ++ b'\n' ∷ rest) h
    ∙ ap (λ t. (c ++ a) ∷ t) (lines-append b rest hb)

-- The type of a key, as sshd names it.
abbrev pub expected_type : ℕ → Bytes
expected_type zero = codes "ssh-rsa"
expected_type (suc zero) = codes "ssh-dsa"
expected_type (suc (suc n)) = codes "unknown"

expected_type-name : (n : ℕ) → ssh_key_type_name n ≡ expected_type n
unfolding ssh_key_type_name
expected_type-name zero = refl
expected_type-name (suc zero) = refl
expected_type-name (suc (suc n)) =
    let f : suc (suc n) == 0 ≡ false = ground arith in
    let g : suc (suc n) == 1 ≡ false = ground arith in rw (f, g) refl

append_all :
    (a b c d e t s k : Bytes)
    → (a ++ (b ++ (c ++ (d ++ (e ++ (t ++ (s))))))) ++ k
      ≡ a ++ (b ++ (c ++ (d ++ (e ++ (t ++ (s ++ (k)))))))
append_all a b c d e t s k =
    rw (append_assoc, append_assoc, append_assoc, append_assoc, append_assoc, append_assoc) refl

module _ (host : Host) (cfg : Config) where
  -- A line as sshd is to read it.
  abbrev pub expected_line : UserSshKey → Bytes
  expected_line r =
      codes "command=\"scissy-shell -socket "
      ++ (cfg.socket
          ++ (codes " -user-id "
              ++ (host.decimal r.user_id
                  ++ (codes "\",no-port-forwarding,no-pty,no-X11-forwarding "
                      ++ (expected_type r.key_type ++ (codes " " ++ r.key))))))

  expected_line-of : (r : UserSshKey) → forced_command host cfg r ++ r.key ≡ expected_line r
  unfolding forced_command
  expected_line-of r =
      append_all command_text cfg.socket user_id_text (host.decimal r.user_id) options_text
        (ssh_key_type_name r.key_type) (codes " ") r.key
      ∙ ap
          (λ t.
            command_text
            ++ (cfg.socket
                ++ (user_id_text
                    ++ (host.decimal r.user_id ++ (options_text ++ (t ++ (codes " " ++ r.key)))))))
          (expected_type-name r.key_type)

  expected_lines :
      (rows : List UserSshKey)
      → map (λ r. forced_command host cfg r ++ r.key) rows ≡ map expected_line rows
  expected_lines [] = refl
  expected_lines (r ∷ rows) = rw (expected_line-of r, expected_lines rows) refl

  written_file :
      (w : World)
      → w.key_file_faults ≡ []
      → (gen_authorized_keys host cfg w).1.authorized_keys
        ≡ authorized_keys_of host cfg w.db.users_ssh_keys
  unfolding gen_authorized_keys open_and_write
  written_file w e = rw e refl

-- The socket's path and printed numbers hold no line feed.
module _ (host : Host) (cfg : Config) (socket_IsOneLine : IsOneLine cfg.socket)
    (decimal-IsOneLine : (n : ℕ) → IsOneLine (host.decimal n)) where
  forced_command-IsOneLine : (r : UserSshKey) → IsOneLine (forced_command host cfg r)
  unfolding forced_command any
  forced_command-IsOneLine r =
      IsOneLine-append command_text _ (literal-IsOneLine command_text refl) (
        IsOneLine-append cfg.socket _ socket_IsOneLine (
          IsOneLine-append user_id_text _ (literal-IsOneLine user_id_text refl) (
            IsOneLine-append (host.decimal r.user_id) _ (decimal-IsOneLine r.user_id) (
              IsOneLine-append options_text _ (literal-IsOneLine options_text refl) (
                IsOneLine-append (ssh_key_type_name r.key_type) _
                  (ssh_key_type_name-IsOneLine r.key_type) (refl, tt))))))

  abbrev pub line_of : UserSshKey → Bytes
  line_of r = forced_command host cfg r ++ r.key

  lines-authorized_keys_of :
      (rows : List UserSshKey)
      → All (λ r. IsOneLine r.key) rows
      → lines (authorized_keys_of host cfg rows) ≡ map line_of rows
  unfolding authorized_keys_of
  lines-authorized_keys_of [] h = unfold lines lines_from in refl
  lines-authorized_keys_of (r ∷ rows) h =
      lines-append (line_of r) (authorized_keys_of host cfg rows)
        (IsOneLine-append (forced_command host cfg r) r.key (forced_command-IsOneLine r) h.0)
      ∙ ap (λ rest. line_of r ∷ rest) (lines-authorized_keys_of rows h.1)

  -- If the socket's path, printed numbers and the stored keys hold no line feed, and the file can be
  -- opened, its lines are those of the rows of the table, in order: each forces scissy-shell on the
  -- socket for the row's user, forbids the forwardings and a terminal, and gives the type of the row's
  -- key and the key.
  pub lines-gen_authorized_keys :
      (w : World)
      → w.key_file_faults ≡ []
      → All (λ r. IsOneLine r.key) w.db.users_ssh_keys
      → lines (gen_authorized_keys host cfg w).1.authorized_keys
        ≡ map (expected_line host cfg) w.db.users_ssh_keys
  lines-gen_authorized_keys w plain h =
      ap lines (written_file host cfg w plain)
      ∙ lines-authorized_keys_of w.db.users_ssh_keys h
      ∙ expected_lines host cfg w.db.users_ssh_keys

  -- A stored key may hold a line feed: then what follows it stands on a line of its own, with no
  -- forced command. Here the file can be opened, the socket's path and printed numbers hold no line
  -- feed, the table's rows are a row whose key is `a`, a line feed and `b`, and rows whose keys hold none, and so do `a` and `b`.
  pub key_injects_line :
      (w : World) (r : UserSshKey) (rows : List UserSshKey) (a b : Bytes)
      → w.key_file_faults ≡ []
      → w.db.users_ssh_keys ≡ r ∷ rows
      → r.key ≡ a ++ b'\n' ∷ b
      → IsOneLine a
      → IsOneLine b
      → All (λ k. IsOneLine k.key) rows
      → lines (gen_authorized_keys host cfg w).1.authorized_keys
        ≡ (forced_command host cfg r ++ a) ∷ b ∷ map line_of rows
  key_injects_line w r rows a b plain e k ha hb hs =
      ap lines (written_file host cfg w plain)
      ∙ ap (λ t. lines (authorized_keys_of host cfg t)) e
      ∙ unfold authorized_keys_of in
        lines-append_two (forced_command host cfg r) r.key a b (authorized_keys_of host cfg rows) k
          (IsOneLine-append (forced_command host cfg r) a (forced_command-IsOneLine r) ha) hb
        ∙ ap (λ t. (forced_command host cfg r ++ a) ∷ b ∷ t) (lines-authorized_keys_of rows hs)
