-- ===== src/Server/Threads/Calls.antt =====
-- The calls under way: which is where, and what a move of one does to it and to the others.
use scissy.Base.{
  ◌≢◌, Option, ◌++◌, ℕ, zero, suc, ◌≡◌, refl, ap, subst, Bool, true, false, none, some, List, [],
  ◌∷◌,
}
use scissy.Host.{Host}
use scissy.Config.{Config}
use scissy.Pb.{k_owner}
use scissy.World.{World}
use scissy.Db.{repo_add_user}
use scissy.Repositories.{Created, created, failed, init_repository, get_repo_path}
use scissy.Server.Threads.{
  Stage, Call, Event, System, call_step, move_call, happen, play, inserting, reading, initializing,
  owning, undoing, returned, after_init, after_owner, move, arrive, statement, remove_directory,
}

-- The call at a place.
abbrev pub get_elem? : List Call → ℕ → Option Call
get_elem? [] i = none
get_elem? (c ∷ cs) zero = some c
get_elem? (c ∷ cs) (suc i) = get_elem? cs i

get-append :
    (cs : List Call) (i : ℕ) (c x : Call)
    → get_elem? cs i ≡ some c
    → get_elem? (cs ++ x ∷ []) i ≡ some c
get-append [] i c x h = absurd (cc h)
get-append (c0 ∷ cs) zero c x h = h
get-append (c0 ∷ cs) (suc i) c x h = get-append cs i c x h

-- The id that a call holds, or returned, is `p`.
abbrev pub HoldsCreated : ℕ → Created → Type 0
HoldsCreated p (created q) = q ≡ p
HoldsCreated p (failed m) = Unit

abbrev pub Holds : ℕ → Stage → Type 0
Holds p inserting = ⊥
Holds p reading = ⊥
Holds p (initializing q) = q ≡ p
Holds p (owning q) = q ≡ p
Holds p (undoing m) = Unit
Holds p (returned r) = HoldsCreated p r

after_init-Holds : (p q : ℕ) (ok : Bool) → q ≡ p → Holds p (after_init q ok)
after_init-Holds p q true e = e
after_init-Holds p q false e = tt

after_owner-Holds : (p q : ℕ) (ok : Bool) → q ≡ p → Holds p (after_owner q ok)
after_owner-Holds p q true e = e
after_owner-Holds p q false e = tt

module _ (host : Host) (cfg : Config) (p : ℕ) where
  call_step-Holds :
      (c : Call) (st : Stage) (w : World) → Holds p st → Holds p (call_step host cfg c st w).0
  unfolding call_step
  call_step-Holds c inserting w h = absurd h
  call_step-Holds c reading w h = absurd h
  call_step-Holds c (initializing q) w h =
      after_init-Holds p q (init_repository host (get_repo_path host cfg q) w).0 h
  call_step-Holds c (owning q) w h = after_owner-Holds p q (repo_add_user q c.user_id k_owner w).0 h
  call_step-Holds c (undoing m) w h = tt
  call_step-Holds c (returned r) w h = h

  move_call-Holds :
      (j i : ℕ) (cs : List Call) (w : World) (c : Call)
      → get_elem? cs i ≡ some c
      → Holds p c.stage
      → (c' : Call) × (get_elem? (move_call host cfg j cs w).0 i ≡ some c') × Holds p c'.stage
  unfolding move_call
  move_call-Holds j i [] w c h k = absurd (cc h)
  move_call-Holds zero zero (c0 ∷ cs) w c h k =
      let e : c ≡ c0 = cc h in
      (
        record c0 { stage = (call_step host cfg c0 c0.stage w).0 },
        refl,
        call_step-Holds c0 c0.stage w (subst (λ x. Holds p x.stage) e k),
      )
  move_call-Holds zero (suc i) (c0 ∷ cs) w c h k = (c, h, k)
  move_call-Holds (suc j) zero (c0 ∷ cs) w c h k = (c, h, k)
  move_call-Holds (suc j) (suc i) (c0 ∷ cs) w c h k = move_call-Holds j i cs w c h k

  pub play-Holds :
      (es : List Event) (s : System) (i : ℕ) (c : Call)
      → get_elem? s.calls i ≡ some c
      → Holds p c.stage
      → (c' : Call) × (get_elem? (play host cfg es s).calls i ≡ some c') × Holds p c'.stage
  unfolding play happen
  play-Holds [] s i c h k = (c, h, k)
  play-Holds (move j ∷ es) s i c h k =
      let (c1, h1, k1) = move_call-Holds j i s.calls s.world c h k in
      play-Holds es (happen host cfg (move j) s) i c1 h1 k1
  play-Holds (arrive name desc is_public user_id ∷ es) s i c h k =
      play-Holds es (happen host cfg (arrive name desc is_public user_id) s) i c
        (get-append s.calls i c _ h) k
  play-Holds (statement q ∷ es) s i c h k = play-Holds es (happen host cfg (statement q) s) i c h k
  play-Holds (remove_directory path ∷ es) s i c h k =
      play-Holds es (happen host cfg (remove_directory path) s) i c h k

module _ (host : Host) (cfg : Config) where
  abbrev pub moved : Call → World → Call
  moved c w = record c { stage = (call_step host cfg c c.stage w).0 }

  -- A move of the call at a place.
  pub move_call_self :
      (i : ℕ) (cs : List Call) (w : World) (c : Call)
      → get_elem? cs i ≡ some c
      → (get_elem? (move_call host cfg i cs w).0 i ≡ some (moved c w))
        × ((move_call host cfg i cs w).1 ≡ (call_step host cfg c c.stage w).1)
  unfolding move_call
  move_call_self i [] w c h = absurd (cc h)
  move_call_self zero (c0 ∷ cs) w c h =
      let e : c0 ≡ c = cc h in
      (ap (λ x. some (moved x w)) e, ap (λ x. (call_step host cfg x x.stage w).1) e)
  move_call_self (suc i) (c0 ∷ cs) w c h = move_call_self i cs w c h

  -- A move of another call leaves it where it is.
  pub move_call_other :
      (i j : ℕ) (cs : List Call) (w : World)
      → i ≢ j
      → get_elem? (move_call host cfg j cs w).0 i ≡ get_elem? cs i
  unfolding move_call
  move_call_other i j [] w h = refl
  move_call_other zero zero (c ∷ cs) w h = absurd (h refl)
  move_call_other zero (suc j) (c ∷ cs) w h = refl
  move_call_other (suc i) zero (c ∷ cs) w h = refl
  move_call_other (suc i) (suc j) (c ∷ cs) w h = move_call_other i j cs w (λ e. h (ap suc e))
