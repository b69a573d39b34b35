-- ===== src/Archive/Sound.antt =====
-- Every location that is parsed was written from what it is parsed to.
use mathlib.Core.List.{reverse, reverse-append, reverse-reverse}
use scissy.Base.{
  ℕ, ◌<◌, ◌^◌, ◌≡◌, ◌≢◌, refl, sym, ap, ◌∙◌, inl, inr, true, false, none, some, List, [], ◌∷◌, ◌++◌,
  arith, ◌==◌, ==_iff, Bool-cases, Option-cases,
}
use scissy.Base.Bytes.{Bytes, bytes_eq}
use scissy.Base.Rows.{any}
use scissy.Base.Rows.Member.{In}
use scissy.Shell.{after_prefix}
use scissy.Archive.{
  Location, prefix, all_digits, number_from, parse_id, split_slash, has_slash, suffix, split_format,
  formats, parse_file, parse_location, setup_of,
}
use scissy.Archive.Parse.{location}

after_prefix-append : (ps s r : Bytes) → after_prefix ps s ≡ some r → s ≡ ps ++ r
unfolding after_prefix
after_prefix-append [] s r h = cc
after_prefix-append (p ∷ ps) [] r h = ground arith
after_prefix-append (p ∷ ps) (c ∷ s) r h = elim (Bool-cases (p == c)) [
  | inl t ↦
      let e : p ≡ c = (==_iff p c).0 t in
      let k = after_prefix-append ps s r (ground arith) in rw (e, k) refl
  | inr f ↦ absurd (ground arith)
]

split_slash-parts :
    (s a b : Bytes) → split_slash s ≡ some (a, b) → (s ≡ a ++ b'/' ∷ b) × (has_slash a ≡ false)
unfolding split_slash has_slash any
split_slash-parts [] a b h = ground arith
split_slash-parts (c ∷ s) a b h = elim (Bool-cases (c == b'/')) [
  | inl t ↦
      let q : some ([], s) ≡ some (a, b) = rw (t, split_slash) at h in
      let ea : [] ≡ a = cc q in
      let eb : s ≡ b = cc q in
      let ec : c ≡ b'/' = (==_iff c b'/').0 t in rw (ec, sym ea, sym eb) (refl, refl)
  | inr f ↦ elim (Option-cases (split_slash s)) [
    | inl e ↦ absurd (ground arith)
    | inr ((a', b'), e) ↦
        let k = split_slash-parts s a' b' e in
        let q : some (c ∷ a', b') ≡ some (a, b) = rw (f, e, split_slash) at h in
        let ea : c ∷ a' ≡ a = cc q in
        let eb : b' ≡ b = cc q in
        let n = k.1 in rw (sym ea, sym eb) (ap (λ x. c ∷ x) k.0, ground arith)
  ]
]

parse_id-digits :
    (s : Bytes) (n : ℕ)
    → parse_id s ≡ some n
    → (s ≢ []) × (all_digits s ≡ true) × (number_from 0 s ≡ n) × (n < 2 ^ 63)
unfolding parse_id
parse_id-digits [] n h = ground arith
parse_id-digits (c ∷ s) n h = elim (Bool-cases (all_digits (c ∷ s))) [
  | inl t ↦ ((λ e. cc e), t, ground arith, ground arith)
  | inr f ↦ absurd (ground arith)
]

split_format-parts :
    (fs : List Bytes) (s dir format : Bytes)
    → split_format fs s ≡ some (dir, format)
    → In format fs × (dir ≢ []) × (s ≡ suffix format ++ reverse dir)
unfolding split_format
split_format-parts [] s dir format h = ground arith
split_format-parts (f ∷ fs) s dir format h = elim (Option-cases (after_prefix (suffix f) s)) [
  | inl e ↦
      let (i, n, k) = split_format-parts fs s dir format (rw (e, split_format) at h) in
      (inr i, n, k)
  | inr ([], e) ↦
      let (i, n, k) = split_format-parts fs s dir format (rw (e, split_format) at h) in
      (inr i, n, k)
  | inr (c ∷ r, e) ↦
      let q : some (reverse (c ∷ r), f) ≡ some (dir, format) = rw (e, split_format) at h in
      let ed : reverse (c ∷ r) ≡ dir = cc q in
      let ef : f ≡ format = cc q in
      let back : c ∷ r ≡ reverse dir = sym (reverse-reverse (c ∷ r)) ∙ ap reverse ed in
      (
        inl (sym ef),
        λ z. absurd (cc (back ∙ ap reverse z)),
        after_prefix-append (suffix f) s (c ∷ r) e
            ∙ ap (λ x. suffix f ++ x) back
            ∙ ap (λ x. suffix x ++ reverse dir) ef,
      )
]

has_slash-append_left : (a b : Bytes) → has_slash (a ++ b) ≡ false → has_slash a ≡ false
unfolding has_slash any
has_slash-append_left [] b h = refl
has_slash-append_left (c ∷ a) b h = ground (arith, has_slash-append_left a b)

-- What the last part of a location is parsed to.
abbrev FileParts : ℕ → Bytes → Bytes → Location → Type 0
FileParts id revision file l =
    (file ≡ l.dir ++ b'.' ∷ l.format)
    × (l.repo_id ≡ id)
    × (l.revision ≡ revision)
    × (revision ≢ [])
    × (l.dir ≢ [])
    × (has_slash l.dir ≡ false)
    × In l.format formats

parse_file-parts :
    (id : ℕ) (revision file : Bytes) (l : Location)
    → parse_file id revision file ≡ some l
    → FileParts id revision file l
unfolding parse_file
parse_file-parts id [] file l h = absurd (cc h)
parse_file-parts id (c ∷ revision) file l h = elim (Bool-cases (has_slash file)) [
  | inl t ↦ absurd (ground arith)
  | inr f ↦ elim (Option-cases (split_format formats (reverse file))) [
    | inl e ↦ absurd (ground arith)
    | inr ((dir, format), e) ↦
        let q : some (record { repo_id = id; revision = c ∷ revision; dir = dir; format = format })
            ≡ some l =
          rw (f, e, parse_file) at h in
        let (i, n, k) = split_format-parts formats (reverse file) dir format e in
        let whole : file ≡ dir ++ b'.' ∷ format =
          sym (reverse-reverse file)
          ∙ ap reverse (k ∙ sym (reverse-append dir (b'.' ∷ format)))
          ∙ reverse-reverse (dir ++ b'.' ∷ format) in
        let el : record { repo_id = id; revision = c ∷ revision; dir = dir; format = format } ≡ l =
          cc q in
        rw (sym el) (
          whole,
          refl,
          refl,
          λ z. absurd (cc z),
          n,
          has_slash-append_left dir (b'.' ∷ format) (rw whole at f),
          i,
        )
  ]
]

setup_of-formats : (f : Bytes) → In f formats → setup_of f ≢ none
unfolding setup_of bytes_eq
setup_of-formats f (inl e) = rw e (λ h. absurd (cc h))
setup_of-formats f (inr (inl e)) = rw e (λ h. absurd (cc h))
setup_of-formats f (inr (inr (inl e))) = rw e (λ h. absurd (cc h))
setup_of-formats f (inr (inr (inr (inl e)))) = rw e (λ h. absurd (cc h))
setup_of-formats f (inr (inr (inr (inr (inl e))))) = rw e (λ h. absurd (cc h))
setup_of-formats f (inr (inr (inr (inr (inr (inl e)))))) = rw e (λ h. absurd (cc h))
setup_of-formats f (inr (inr (inr (inr (inr (inr (inl e))))))) = rw e (λ h. absurd (cc h))
setup_of-formats f (inr (inr (inr (inr (inr (inr (inr (inl e)))))))) = rw e (λ h. absurd (cc h))
setup_of-formats f (inr (inr (inr (inr (inr (inr (inr (inr (inl e))))))))) =
    rw e (λ h. absurd (cc h))
setup_of-formats f (inr (inr (inr (inr (inr (inr (inr (inr (inr (inl e)))))))))) =
    rw e (λ h. absurd (cc h))
setup_of-formats f (inr (inr (inr (inr (inr (inr (inr (inr (inr (inr z)))))))))) = elim z [ ]

-- A location that is parsed is one that is written from a number below 2^63, in digits, and from the
-- revision, the name and the format that it is parsed to, which are not empty and hold no slash; and
-- the chain of tests sets its format up.
pub parse_location-Sound :
    (s : Bytes) (l : Location)
    → parse_location s ≡ some l
    → (number : Bytes) × (s ≡ location number l.revision l.dir l.format)
      × (number ≢ [])
      × (all_digits number ≡ true)
      × (number_from 0 number ≡ l.repo_id)
      × (l.repo_id < 2 ^ 63)
      × (l.revision ≢ [])
      × (has_slash l.revision ≡ false)
      × (l.dir ≢ [])
      × (has_slash l.dir ≡ false)
      × (setup_of l.format ≢ none)
unfolding parse_location
parse_location-Sound s l h = elim (Option-cases (after_prefix prefix s)) [
  | inl e ↦ absurd (cc (rw (e, parse_location) at h))
  | inr (rest, e) ↦ elim (Option-cases (split_slash rest)) [
    | inl e1 ↦ absurd (cc (rw (e, e1, parse_location) at h))
    | inr ((number, rest1), e1) ↦ elim (Option-cases (parse_id number)) [
      | inl e2 ↦ absurd (cc (rw (e, e1, e2, parse_location) at h))
      | inr (id, e2) ↦ elim (Option-cases (split_slash rest1)) [
        | inl e3 ↦ absurd (cc (rw (e, e1, e2, e3, parse_location) at h))
        | inr ((revision, file), e3) ↦
            let q : parse_file id revision file ≡ some l =
              rw (e, e1, e2, e3, parse_location) at h in
            let (whole, i, r, nr, nd, sd, f) = parse_file-parts id revision file l q in
            let (t, ts) = split_slash-parts rest number rest1 e1 in
            let (t1, ts1) = split_slash-parts rest1 revision file e3 in
            let (nn, dn, vn, bn) = parse_id-digits number id e2 in
            (
              number,
              rw r (
                  after_prefix-append prefix s rest e
                  ∙ ap (λ x. prefix ++ x)
                      (t
                        ∙ ap (λ x. number ++ b'/' ∷ x)
                            (t1 ∙ ap (λ x. revision ++ b'/' ∷ x) whole))),
              nn,
              dn,
              vn ∙ sym i,
              rw i bn,
              rw r nr,
              rw r ts1,
              nd,
              sd,
              setup_of-formats l.format f,
            )
      ]
    ]
  ]
]
