-- ===== src/Service/Went.antt =====
-- What a handler went through, if it ended with an answer of a given kind: each of its parts went on.
use scissy.Base.{
  ◌⊎◌, ◌≡◌, refl, sym, ap, subst, Bool, true, false, Option, none, some, inl, inr, if◌then◌else◌,
}
use scissy.Schema.{Database}
use scissy.World.{World}
use scissy.Service.{
  Reply, answered, Exec, Flow, next, stop, continue, ◌>>=◌, run, gets, or_stop, proceed, stop_with,
  unless_ok, given, macros,
}

module _ {R : Type 0} (Good : R → Type 0) where
  abbrev pub IsGood : Reply R → Type 0
  IsGood (answered r) = Good r
  IsGood _ = ⊥

  -- Where the action stops, the answer is not of the kind.
  pub record Careful {A : Type 0} (m : Exec R A) : Type 0 where
    pub at : (w : World) (r : Reply R) → (m w).0 ≡ stop r → ¬ IsGood r

  -- The action went on with a value, in the state `w'`, and what followed decided the answer.
  pub record Went {A : Type 0} (m : Exec R A) (f : A → Exec R R) (w w' : World) : Type 0 where
    pub value : A
    pub by : (m w).0 ≡ next value
    pub on : run (m >>= f) w ≡ run (f value) w'

  module _ {A : Type 0} (m : Exec R A) (f : A → Exec R R) (w w' : World) where
    pub bind-Went : Careful m → (m w).1 ≡ w' → IsGood (run (m >>= f) w).0 → Went m f w w'
    unfolding ◌>>=◌
    bind-Went c q h = cases (m w).0 refl
      where
        cases : (r : Flow R A) → (m w).0 ≡ r → Went m f w w'
        cases (next a) e = record { value = a; by = e; on = rw (e, q) refl }
        cases (stop r) e = absurd (c.at w r e (rw e at h))

  module _ {A B : Type 0} where
    continue-Careful :
        (r : Flow R A) (f : A → Exec R B) (w : World) (r' : Reply R)
        → ((r'' : Reply R) → r ≡ stop r'' → ¬ IsGood r'')
        → ((a : A) → Careful (f a))
        → (continue r f w).0 ≡ stop r'
        → ¬ IsGood r'
    continue-Careful (next a) f w r' c k e = (k a).at w r' e
    continue-Careful (stop r) f w r' c k e = c r' (ap (λ (x : Flow R B). again x) e)
      where
        again : Flow R B → Flow R A
        again (next b) = stop r
        again (stop r'') = stop r''

    pub >>=-Careful :
        (m : Exec R A) (f : A → Exec R B)
        → Careful m
        → ((a : A) → Careful (f a))
        → Careful (m >>= f)
    unfolding ◌>>=◌
    >>=-Careful m f c k = record {
      at = λ w r e. continue-Careful (m w).0 f (m w).1 r (λ r'' e'. c.at w r'' e') k e;
    }

  module _ {A : Type 0} where
    pub proceed-Careful : (a : A) → Careful (proceed a)
    unfolding macros
    proceed-Careful a = record { at = λ w r e. cc }

    pub gets-Careful : (f : Database → A) → Careful (gets f)
    unfolding macros
    gets-Careful f = record { at = λ w r e. cc }

    stop_injective : {r r' : Reply R} → ◌≡◌ {A = Flow R A} (stop r) (stop r') → r ≡ r'
    stop_injective e = cc

    pub stop_with-Careful : (r : Reply R) → ¬ IsGood r → Careful {A = A} (stop_with r)
    unfolding macros
    stop_with-Careful r h = record { at = λ w r' e g. h (subst IsGood (sym (stop_injective e)) g) }

    pub or_stop-Careful : (o : Option A) (r : Reply R) → ¬ IsGood r → Careful (or_stop o r)
    unfolding macros
    or_stop-Careful none r h = record {
      at = λ w r' e g. h (subst IsGood (sym (stop_injective e)) g);
    }
    or_stop-Careful (some a) r h = record { at = λ w r' e. cc }

    pub given-Careful : (o : Option A) (m : Exec R A) → Careful m → Careful (given o m)
    unfolding macros
    given-Careful none m c = c
    given-Careful (some a) m c = record { at = λ w r' e. cc }

    pub if-Careful :
        (b : Bool) (m n : Exec R A) → Careful m → Careful n → Careful (if b then m else n)
    if-Careful true m n c d = c
    if-Careful false m n c d = d

  pub unless_ok-Careful : (b : Bool) (r : R) → ¬ Good r → Careful (unless_ok b r)
  unfolding macros
  unless_ok-Careful true r h = record { at = λ w r' e. cc }
  unless_ok-Careful false r h = stop_with-Careful (answered r) h

module _ {R A B : Type 0} where
  continue-next :
      (r : Flow R A) (f : A → Exec R B) (w : World) (b : B)
      → (continue r f w).0 ≡ next b
      → (a : A) × (r ≡ next a) × ((f a w).0 ≡ next b)
  continue-next (next a) f w b e = (a, refl, e)
  continue-next (stop r) f w b e = cc

  -- A sequence goes on if both its parts do.
  pub bind-next :
      (m : Exec R A) (f : A → Exec R B) (w w' : World) (b : B)
      → (m w).1 ≡ w'
      → ((m >>= f) w).0 ≡ next b
      → (a : A) × ((m w).0 ≡ next a) × ((f a w').0 ≡ next b)
  unfolding ◌>>=◌
  bind-next m f w w' b q e =
      let (a, n, k) = continue-next (m w).0 f (m w).1 b e in
      (a, n, subst (λ v. (f a v).0 ≡ next b) q k)

  -- A sequence whose first part stops is that part.
  pub bind_stop :
      (m : Exec R A) (f : A → Exec R B) (w : World) (r : Reply R)
      → (m w).0 ≡ stop r
      → (m >>= f) w ≡ (stop r, (m w).1)
  unfolding ◌>>=◌
  bind_stop m f w r e = rw e refl

module _ {R A : Type 0} where
  pub or_stop-next :
      (o : Option A) (r : Reply R) (w : World) (a : A) → (or_stop o r w).0 ≡ next a → o ≡ some a
  unfolding macros
  or_stop-next none r w a e = cc
  or_stop-next (some b) r w a e = cc

  pub gets-next :
      (f : Database → A) (w : World) (a : A) → (gets {R = R} f w).0 ≡ next a → f w.db ≡ a
  unfolding macros
  gets-next f w a e = cc

  pub proceed-next : (a b : A) (w : World) → (proceed {R = R} a w).0 ≡ next b → a ≡ b
  unfolding macros
  proceed-next a b w e = cc

  pub or_stop-Reads : (o : Option A) (r : Reply R) (w : World) → (or_stop o r w).1 ≡ w
  unfolding macros
  or_stop-Reads none r w = refl
  or_stop-Reads (some a) r w = refl

  pub Flow-cases : (x : Flow R A) → ((a : A) × (x ≡ next a)) ⊎ ((r : Reply R) × (x ≡ stop r))
  Flow-cases (next a) = inl (a, refl)
  Flow-cases (stop r) = inr (r, refl)
