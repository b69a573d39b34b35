-- ===== src/Host.antt =====
-- The third-party code that the program calls, as far as the model depends on what it computes. These
-- are functions of their arguments; what a theorem needs of them is among its hypotheses.
use scissy.Base.{ℕ, Bool, Option, List, String}
use scissy.Schema.{Group, GroupUser}
use scissy.Base.Bytes.{Bytes}

pub record Host : Type 0 where
  -- `%x` of mimosa::format::str
  pub hex : ℕ → Bytes
  -- `%d` and `<<` of an integer
  pub decimal : ℕ → Bytes
  -- mimosa::stream::Base16Encoder and Base16Decoder
  pub base16_encode : Bytes → Bytes
  pub base16_decode : Bytes → Bytes
  -- mimosa::stream::Sha3_512
  pub sha3_512 : Bytes → Bytes
  -- cracklib's FascistCheck over the default dictionary
  pub fascist_check : Bytes → Option String
  -- mimosa::http::time
  pub http_time : ℕ → Bytes
  -- whether `git_repository_init` succeeds at a path
  pub git_init : Bytes → Bool
  -- what a fetch of a null text leaves, and the row whose columns the engine gives beside an aggregate
  pub null_text : Bytes
  pub pick_row : List (Group × GroupUser) → Option (Group × GroupUser)
  -- the exit code of the authentication program, given USERNAME and PASSWORD, if it starts
  pub run_auth : Bytes → Bytes → Option ℕ
