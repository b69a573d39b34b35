-- ===== src/Server/Threads/Prompt.antt =====
-- A call of `Repositories::create` that reads the id at once.
use scissy.Base.{
  ℕ, suc, ◌≡◌, refl, sym, ap, subst, ◌∙◌, Bool, false, none, some, List, [], ◌∷◌, arith,
}
use scissy.Base.Bytes.{bytes_eq, bytes_eq_refl}
use scissy.Base.Rows.{any, first, first-append}
use scissy.Host.{Host}
use scissy.Config.{Config}
use scissy.Schema.{Code, done, constraint, error, Repo}
use scissy.Schema.Repos.{insert_repo}
use scissy.World.{World, step}
use scissy.Db.{repo_get_id}
use scissy.Repositories.{created}
use scissy.Repositories.Create.{created_repo}
use scissy.Server.Threads.{
  Call, Event, System, call_step, happen, play, inserting, returned, after_insert, move,
}
use scissy.Server.Threads.Calls.{get_elem?, Holds, play-Holds, moved, move_call_self}

first-none : {A : Type 0} (p : A → Bool) (xs : List A) → any p xs ≡ false → first p xs ≡ none
unfolding any first
first-none p [] h = refl
first-none p (x ∷ xs) h = ground (arith, first-none p xs)

module _ (host : Host) (cfg : Config) where
  module _ (s : System) (i : ℕ) (c : Call) (here : get_elem? s.calls i ≡ some c)
      (fresh : c.stage ≡ inserting) where
    abbrev inserted : Code × World
    inserted = step (insert_repo c.name c.desc c.is_public) s.world

    first_step : call_step host cfg c c.stage s.world ≡ (after_insert inserted.0, inserted.1)
    unfolding call_step
    first_step = ap (λ st. call_step host cfg c st s.world) fresh

    abbrev system1 : System
    system1 = happen host cfg (move i) s

    abbrev call1 : Call
    call1 = moved host cfg c s.world

    world1 : system1.world ≡ inserted.1
    unfolding happen
    world1 = (move_call_self host cfg i s.calls s.world c here).1 ∙ ap (λ x. x.1) first_step

    here1 : get_elem? system1.calls i ≡ some call1
    unfolding happen
    here1 = (move_call_self host cfg i s.calls s.world c here).0

    here2 :
        get_elem? (happen host cfg (move i) system1).calls i
        ≡ some (moved host cfg call1 system1.world)
    unfolding happen
    here2 = (move_call_self host cfg i system1.calls system1.world call1 here1).0

    stage1 : (code : Code) → inserted.0 ≡ code → call1.stage ≡ after_insert code
    stage1 code e = ap (λ x. x.0) first_step ∙ ap after_insert e

    -- What the second step comes to: the id of the row, or a failure.
    second-Holds :
        (code : Code) (k : ℕ)
        → inserted.0 ≡ code
        → (code ≡ done → inserted.1.db.last_rowid ≡ k)
        → Holds k (moved host cfg call1 system1.world).stage
    unfolding call_step
    second-Holds done k e id =
        subst (λ st. Holds k (call_step host cfg call1 st system1.world).0) (sym (stage1 done e))
          (ap (λ x. x.db.last_rowid) world1 ∙ id refl)
    second-Holds constraint k e id =
        subst (λ st. Holds k (call_step host cfg call1 st system1.world).0)
          (sym (stage1 constraint e)) tt
    second-Holds error k e id =
        subst (λ st. Holds k (call_step host cfg call1 st system1.world).0) (sym (stage1 error e))
          tt

    module _ (es : List Event) (c' : Call) (p : ℕ) where
      ends_with :
          (k : ℕ)
          → Holds k (moved host cfg call1 system1.world).stage
          → get_elem? (play host cfg (move i ∷ move i ∷ es) s).calls i ≡ some c'
          → c'.stage ≡ returned (created p)
          → p ≡ k
      unfolding play
      ends_with k h g e =
          let (c2, g2, h2) =
            play-Holds host cfg k es (happen host cfg (move i) system1) i
              (moved host cfg call1 system1.world) here2 h in
          let same : c2 ≡ c' = cc (g, g2) in subst (Holds k) (ap (λ x. x.stage) same ∙ e) h2

      own_row :
          (code : Code)
          → inserted.0 ≡ code
          → get_elem? (play host cfg (move i ∷ move i ∷ es) s).calls i ≡ some c'
          → c'.stage ≡ returned (created p)
          → (repo_get_id c.name s.world.db ≡ none) × (repo_get_id c.name inserted.1.db ≡ some p)
      unfolding repo_get_id
      own_row done e g r =
          let (free, rows, id) = created_repo s.world c.name c.desc c.is_public e in
          let same = ends_with (suc s.world.db.seq_repos) (second-Holds done _ e (λ x. id)) g r in
          (
            rw (first-none (λ (x : Repo). bytes_eq x.name c.name) s.world.db.repos free) refl,
            rw
                (
                  rows,
                  first-append (λ (x : Repo). bytes_eq x.name c.name) s.world.db.repos,
                  free,
                  bytes_eq_refl c.name,
                )
                (ap some (sym same)),
          )
      own_row constraint e g r =
          absurd (
            omega (arith, ends_with (suc p) (second-Holds constraint _ e (λ x. absurd (cc x))) g r))
      own_row error e g r =
          absurd
            (omega (arith, ends_with (suc p) (second-Holds error _ e (λ x. absurd (cc x))) g r))

      -- If a call reads the id before any other thread comes between it and its insertion, then
      -- whatever happens afterwards, an id that it returns is that of its own row: its name was free,
      -- and after its insertion it was found with that id.
      pub play_own_row :
          get_elem? (play host cfg (move i ∷ move i ∷ es) s).calls i ≡ some c'
          → c'.stage ≡ returned (created p)
          → (repo_get_id c.name s.world.db ≡ none)
            × (repo_get_id c.name (step (insert_repo c.name c.desc c.is_public) s.world).1.db
                ≡ some p)
      play_own_row g r = own_row inserted.0 refl g r
