-- ===== src/Tests/Archives.antt =====
-- Archives of the sample's repository.
use scissy.Base.{
  ◌∷◌, ◌⊎◌, ◌<◌, ◌^◌, none, ℕ, ◌≤◌, ◌≡◌, ◌≢◌, refl, inl, true, false, some, [], arith,
}
use scissy.Base.Bytes.{Bytes, codes}
use scissy.Base.Rows.{any}
use scissy.Db.{repo_is_public}
use scissy.Db.Granted.{Grants}
use scissy.Session.{session}
use scissy.Archive.{
  not_found, Setup, archive, Location, failure, forbidden, setup_of, parse_location, handle,
  all_digits, number_from, has_slash,
}
use scissy.Archive.Parse.{location, parse_location-location}
use scissy.Archive.Sound.{parse_location-Sound}
use scissy.Archive.Public.{WrittenAs, TreeAt, handle-public}
use scissy.Archive.Handle.{handle-private}
use scissy.Schema.{Database}
use scissy.Tests.Sample.{empty, host, cfg, bob_cookies, world, world-IsValid, runs}
use scissy.Tests.Reveal.{git}

abbrev number : Bytes
number = codes "1"

abbrev revision : Bytes
revision = codes "v1.2"

abbrev dir : Bytes
dir = codes "lib-1.2"

abbrev format : Bytes
format = codes "tar.gz"

is_number : all_digits number ≡ true
unfolding all_digits
is_number = refl

is_one : number_from 0 number ≡ 1
unfolding number_from
is_one = refl

revision_IsFlat : has_slash revision ≡ false
unfolding has_slash any
revision_IsFlat = refl

dir_IsFlat : has_slash dir ≡ false
unfolding has_slash any
dir_IsFlat = refl

parse_location-location_example :
    parse_location (location number revision dir format)
    ≡ some
        (record { repo_id = number_from 0 number; revision = revision; dir = dir; format = format })
parse_location-location_example =
    parse_location-location number revision dir format (λ h. cc h) is_number (omega (arith, is_one))
      (λ h. cc h) revision_IsFlat (λ h. cc h) dir_IsFlat (inl refl)

abbrev sent : Bytes
sent = codes "/repo/archive/007/v1.2/lib-1.2.tar.gz"

abbrev parsed : Location
parsed = record { repo_id = 7; revision = revision; dir = dir; format = format }

sent-parsed : parse_location sent ≡ some parsed
unfolding parse_location all_digits number_from has_slash any
sent-parsed = refl

parse_location-Sound_example :
    (written : Bytes) × (sent ≡ location written revision dir format)
    × (written ≢ [])
    × (all_digits written ≡ true)
    × (number_from 0 written ≡ 7)
    × (◌<◌ 7 (2 ^ 63))
    × (revision ≢ [])
    × (has_slash revision ≡ false)
    × (dir ≢ [])
    × (has_slash dir ≡ false)
    × (setup_of format ≢ none)
parse_location-Sound_example = parse_location-Sound sent parsed sent-parsed

abbrev open_db : Database
open_db = record empty {
  repos = record { repo_id = 1; name = codes "lib"; desc = []; is_public = true } ∷ [];
}

is_public : repo_is_public (number_from 0 number) open_db ≡ some true
unfolding number_from runs
is_public = refl

handle-public_example :
    ((setup : Setup) × (tree : ℕ) × WrittenAs format setup
      × TreeAt host cfg git (number_from 0 number) revision tree
      × (handle host cfg git [] (location number revision dir format) open_db
          ≡ archive (some setup) tree (codes "lib-1.2/")))
    ⊎ (((tree : ℕ) → ¬ TreeAt host cfg git (number_from 0 number) revision tree)
        × (handle host cfg git [] (location number revision dir format) open_db
            ≡ failure not_found))
handle-public_example =
    handle-public host cfg git [] open_db number revision dir format (λ h. cc h) is_number
      (omega (arith, is_one)) (λ h. cc h) revision_IsFlat (λ h. cc h) dir_IsFlat (inl refl)
      is_public

is_private : repo_is_public (number_from 0 number) world.db ≡ some false
unfolding number_from runs
is_private = refl

signed_in : 1 ≤ (session bob_cookies world.db).user_id
unfolding runs
signed_in = omega arith

handle-private_example :
    ((n : ℕ)
      → Grants world.db (number_from 0 number) (session bob_cookies world.db).user_id n
      → 1 ≤ n
      → handle host cfg git bob_cookies (location number revision dir format) world.db
        ≡ failure forbidden)
    × (((n : ℕ)
          → Grants world.db (number_from 0 number) (session bob_cookies world.db).user_id n
          → n ≡ 0)
        → handle host cfg git bob_cookies (location number revision dir format) world.db
          ≢ failure forbidden)
handle-private_example =
    handle-private host cfg git bob_cookies world.db number revision dir format (λ h. cc h)
      is_number (omega (arith, is_one)) (λ h. cc h) revision_IsFlat (λ h. cc h) dir_IsFlat
      (inl refl) world-IsValid is_private signed_in
