-- ===== src/Archive/Parse.antt =====
-- The locations of archives, as they are written and as they are parsed.
use mathlib.Core.List.{reverse, reverse-append, reverse-reverse}
use scissy.Base.{
  ℕ, ◌<◌, ◌^◌, ◌≡◌, ◌≢◌, refl, sym, ap, ◌∙◌, inl, inr, true, false, some, [], ◌∷◌, ◌++◌, arith,
  ◌==◌,
}
use scissy.Base.Bytes.{Bytes}
use scissy.Base.Rows.{any}
use scissy.Base.Rows.Member.{In}
use scissy.Archive.{
  prefix, all_digits, number_from, parse_id, split_slash, has_slash, suffix, split_format, formats,
  parse_file, parse_location,
}

-- The location of an archive.
abbrev pub location : Bytes → Bytes → Bytes → Bytes → Bytes
location number revision dir format =
    prefix ++ (number ++ b'/' ∷ (revision ++ b'/' ∷ (dir ++ b'.' ∷ format)))

split_slash-append : (a b : Bytes) → has_slash a ≡ false → split_slash (a ++ b'/' ∷ b) ≡ some (a, b)
unfolding split_slash has_slash any
split_slash-append [] b h = refl
split_slash-append (c ∷ a) b h =
    let f : c == b'/' ≡ false = ground arith in rw (f, split_slash-append a b (ground arith)) refl

digits-has_slash : (s : Bytes) → all_digits s ≡ true → has_slash s ≡ false
unfolding all_digits has_slash any
digits-has_slash [] h = refl
digits-has_slash (c ∷ s) h = ground (arith, digits-has_slash s)

-- The end of a file's name decides its format.
split_format-suffix :
    (f : Bytes) (x : ℕ) (xs : Bytes)
    → In f formats
    → split_format formats (suffix f ++ x ∷ xs) ≡ some (reverse (x ∷ xs), f)
unfolding split_format
split_format-suffix f x xs (inl e) = rw e refl
split_format-suffix f x xs (inr (inl e)) = rw e refl
split_format-suffix f x xs (inr (inr (inl e))) = rw e refl
split_format-suffix f x xs (inr (inr (inr (inl e)))) = rw e refl
split_format-suffix f x xs (inr (inr (inr (inr (inl e))))) = rw e refl
split_format-suffix f x xs (inr (inr (inr (inr (inr (inl e)))))) = rw e refl
split_format-suffix f x xs (inr (inr (inr (inr (inr (inr (inl e))))))) = rw e refl
split_format-suffix f x xs (inr (inr (inr (inr (inr (inr (inr (inl e)))))))) = rw e refl
split_format-suffix f x xs (inr (inr (inr (inr (inr (inr (inr (inr (inl e))))))))) = rw e refl
split_format-suffix f x xs (inr (inr (inr (inr (inr (inr (inr (inr (inr (inl e)))))))))) = rw e refl
split_format-suffix f x xs (inr (inr (inr (inr (inr (inr (inr (inr (inr (inr z)))))))))) =
    elim z [ ]

split_format-lem :
    (f dir back : Bytes)
    → In f formats
    → dir ≢ []
    → reverse dir ≡ back
    → split_format formats (suffix f ++ back) ≡ some (reverse back, f)
split_format-lem f dir [] i n e = absurd (n (sym (reverse-reverse dir) ∙ ap reverse e))
split_format-lem f dir (x ∷ xs) i n e = split_format-suffix f x xs i

formats-has_slash : (f : Bytes) → In f formats → has_slash f ≡ false
unfolding has_slash any
formats-has_slash f (inl e) = rw e refl
formats-has_slash f (inr (inl e)) = rw e refl
formats-has_slash f (inr (inr (inl e))) = rw e refl
formats-has_slash f (inr (inr (inr (inl e)))) = rw e refl
formats-has_slash f (inr (inr (inr (inr (inl e))))) = rw e refl
formats-has_slash f (inr (inr (inr (inr (inr (inl e)))))) = rw e refl
formats-has_slash f (inr (inr (inr (inr (inr (inr (inl e))))))) = rw e refl
formats-has_slash f (inr (inr (inr (inr (inr (inr (inr (inl e)))))))) = rw e refl
formats-has_slash f (inr (inr (inr (inr (inr (inr (inr (inr (inl e))))))))) = rw e refl
formats-has_slash f (inr (inr (inr (inr (inr (inr (inr (inr (inr (inl e)))))))))) = rw e refl
formats-has_slash f (inr (inr (inr (inr (inr (inr (inr (inr (inr (inr z)))))))))) = elim z [ ]

has_slash-append :
    (a b : Bytes) → has_slash a ≡ false → has_slash b ≡ false → has_slash (a ++ b'.' ∷ b) ≡ false
unfolding has_slash any
has_slash-append [] b h k = k
has_slash-append (c ∷ a) b h k = ground (arith, has_slash-append a b)

parse_file-file :
    (id : ℕ) (revision dir format : Bytes)
    → revision ≢ []
    → dir ≢ []
    → has_slash dir ≡ false
    → In format formats
    → parse_file id revision (dir ++ b'.' ∷ format)
      ≡ some (record { repo_id = id; revision = revision; dir = dir; format = format })
unfolding parse_file
parse_file-file id [] dir format r n h i = absurd (r refl)
parse_file-file id (c ∷ revision) dir format r n h i =
    rw
      (
        has_slash-append dir format h (formats-has_slash format i),
        reverse-append dir (b'.' ∷ format),
        split_format-lem format dir (reverse dir) i n refl,
        reverse-reverse dir,
      )
      refl

parse_id-digits :
    (number : Bytes)
    → number ≢ []
    → all_digits number ≡ true
    → number_from 0 number < 2 ^ 63
    → parse_id number ≡ some (number_from 0 number)
unfolding parse_id
parse_id-digits [] n d b = absurd (n refl)
parse_id-digits (c ∷ s) n d b = rw d (ground arith)

-- The location of an archive is parsed to what it was written from: a number of a repository below
-- 2^63, in digits, a revision and a name that are not empty and hold no slash, and one of the formats.
pub parse_location-location :
    (number revision dir format : Bytes)
    → number ≢ []
    → all_digits number ≡ true
    → number_from 0 number < 2 ^ 63
    → revision ≢ []
    → has_slash revision ≡ false
    → dir ≢ []
    → has_slash dir ≡ false
    → In format formats
    → parse_location (location number revision dir format)
      ≡ some (record {
        repo_id = number_from 0 number;
        revision = revision;
        dir = dir;
        format = format;
      })
unfolding parse_location
parse_location-location number revision dir format n d b r hr nd hd i =
    rw
      (
        split_slash-append number (revision ++ b'/' ∷ (dir ++ b'.' ∷ format))
            (digits-has_slash number d),
        parse_id-digits number n d b,
        split_slash-append revision (dir ++ b'.' ∷ format) hr,
      )
      (parse_file-file (number_from 0 number) revision dir format r nd hd i)
