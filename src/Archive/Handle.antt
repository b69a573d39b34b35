-- ===== src/Archive/Handle.antt =====
-- Who is served an archive.
use scissy.Base.{
  ℕ, ◌≤◌, ◌<◌, ◌^◌, ◌≡◌, ◌≢◌, refl, sym, ◌∙◌, inl, inr, true, false, some, [], arith, Bool-cases,
}
use scissy.Base.Bytes.{Bytes}
use scissy.Base.Rows.Member.{In}
use scissy.Pb.{k_reader}
use scissy.Git.{Git}
use scissy.Host.{Host}
use scissy.Config.{Config}
use scissy.Schema.{Database}
use scissy.Schema.Valid.{IsValid}
use scissy.Db.{repo_is_public}
use scissy.Db.Granted.{Grants}
use scissy.Session.{Cookies, session}
use scissy.Access.{access_check_repo, access_check_repo-Grants}
use scissy.Archive.{
  Location, failure, forbidden, formats, all_digits, number_from, has_slash, handle, archive_of,
}
use scissy.Archive.Parse.{location, parse_location-location}

module _ (host : Host) (cfg : Config) (git : Git) (cookies : Cookies) (d : Database) where
  module _ (number revision dir format : Bytes) (number_IsGiven : number ≢ [])
      (number_IsDigits : all_digits number ≡ true) (number_small : number_from 0 number < 2 ^ 63)
      (revision_IsGiven : revision ≢ []) (revision_IsFlat : has_slash revision ≡ false)
      (dir_IsGiven : dir ≢ []) (dir_IsFlat : has_slash dir ≡ false)
      (format-In : In format formats) where
    pub handle-location :
        handle host cfg git cookies (location number revision dir format) d
        ≡ archive_of host cfg git cookies d (record {
          repo_id = number_from 0 number;
          revision = revision;
          dir = dir;
          format = format;
        })
    unfolding handle
    handle-location =
        rw
          (parse_location-location number revision dir format number_IsGiven number_IsDigits
            number_small revision_IsGiven revision_IsFlat dir_IsGiven dir_IsFlat format-In)
          refl

    -- Over a well-formed database a signed-in user who is granted a role on a private repository that
    -- is at least a reader's is refused its archives, and one who is granted none but the role `none`
    -- is not refused: the check is the wrong way round.
    pub handle-private :
        IsValid d
        → repo_is_public (number_from 0 number) d ≡ some false
        → 1 ≤ (session cookies d).user_id
        → ((n : ℕ)
            → Grants d (number_from 0 number) (session cookies d).user_id n
            → 1 ≤ n
            → handle host cfg git cookies (location number revision dir format) d
              ≡ failure forbidden)
          × (((n : ℕ) → Grants d (number_from 0 number) (session cookies d).user_id n → n ≡ 0)
              → handle host cfg git cookies (location number revision dir format) d
                ≢ failure forbidden)
    unfolding archive_of
    handle-private v p u =
        let k =
          access_check_repo-Grants (session cookies d) (number_from 0 number) k_reader d v p u in
        (
          λ n g le.
              elim (Bool-cases
                (access_check_repo (session cookies d) (number_from 0 number) k_reader d)) [
                  | inl t ↦ let z = k.0 t n g in absurd (omega arith)
                  | inr f ↦ rw (handle-location, f) refl
                ],
          λ none_granted e.
              let t = k.1 none_granted in
              served
                (record {
                  repo_id = number_from 0 number;
                  revision = revision;
                  dir = dir;
                  format = format;
                })
                t (sym handle-location ∙ e),
        )
      where
        served :
            (l : Location)
            → access_check_repo (session cookies d) l.repo_id k_reader d ≡ true
            → archive_of host cfg git cookies d l ≢ failure forbidden
        served l t e = ground arith
