-- ===== src/Server/Threads/Race.antt =====
-- A call of `Repositories::create` that another one overtakes: the id that it reads is that of the last
-- insertion over the connection, whoever made it.
use scissy.Base.{
  ◌≢◌, ◌++◌, ℕ, suc, ◌≡◌, refl, sym, ap, subst, ◌∙◌, Bool, false, some, List, [], ◌∷◌, arith,
}
use scissy.Base.Bytes.{Bytes, bytes_eq, bytes_eq_refl}
use scissy.Base.Rows.{any, any-append, first-append}
use scissy.Host.{Host}
use scissy.Config.{Config}
use scissy.Schema.{Code, done, constraint, error, Repo}
use scissy.Schema.Repos.{insert_repo}
use scissy.World.{World, step, step_with}
use scissy.Db.{repo_get_id}
use scissy.Repositories.{created}
use scissy.Repositories.Create.{created_repo}
use scissy.Server.Threads.{
  Call, Event, System, call_step, happen, play, inserting, returned, after_insert, move,
}
use scissy.Schema.{Database}
use scissy.Server.Threads.Calls.{
  get_elem?, Holds, play-Holds, moved, move_call_self, move_call_other,
}

-- The counter after an insertion.
inserted-seq_repos :
    (w : World) (name desc : Bytes) (is_public : Bool)
    → (step (insert_repo name desc is_public) w).0 ≡ done
    → (step (insert_repo name desc is_public) w).1.db.seq_repos ≡ suc w.db.seq_repos
unfolding step step_with insert_repo
inserted-seq_repos w name desc is_public h = ground arith

-- A row that was inserted is found, also after another one was.
found_still :
    (d d' d'' : Database) (r r' : Repo)
    → any (λ x. bytes_eq x.name r.name) d.repos ≡ false
    → d'.repos ≡ d.repos ++ r ∷ []
    → d''.repos ≡ d'.repos ++ r' ∷ []
    → repo_get_id r.name d'' ≡ some r.repo_id
unfolding repo_get_id
found_still d d' d'' r r' free e e' =
    rw
      (
        e',
        e,
        first-append (λ (x : Repo). bytes_eq x.name r.name) (d.repos ++ r ∷ []) r',
        any-append (λ (x : Repo). bytes_eq x.name r.name) d.repos r,
        first-append (λ (x : Repo). bytes_eq x.name r.name) d.repos r,
        free,
        bytes_eq_refl r.name,
      )
      refl

found_last :
    (d d' : Database) (r : Repo)
    → any (λ x. bytes_eq x.name r.name) d.repos ≡ false
    → d'.repos ≡ d.repos ++ r ∷ []
    → repo_get_id r.name d' ≡ some r.repo_id
unfolding repo_get_id
found_last d d' r free e =
    rw
      (e, first-append (λ (x : Repo). bytes_eq x.name r.name) d.repos r, free, bytes_eq_refl r.name)
      refl

module _ (host : Host) (cfg : Config) (s : System) (i j : ℕ) (c c' : Call) (apart : i ≢ j)
    (here : get_elem? s.calls i ≡ some c) (here' : get_elem? s.calls j ≡ some c')
    (fresh : c.stage ≡ inserting) (fresh' : c'.stage ≡ inserting) where
  abbrev inserted : Code × World
  inserted = step (insert_repo c.name c.desc c.is_public) s.world

  -- The other call's insertion, after that.
  abbrev inserted' : Code × World
  inserted' = step (insert_repo c'.name c'.desc c'.is_public) inserted.1

  first_step : call_step host cfg c c.stage s.world ≡ (after_insert inserted.0, inserted.1)
  unfolding call_step
  first_step = ap (λ st. call_step host cfg c st s.world) fresh

  abbrev system1 : System
  system1 = happen host cfg (move i) s

  abbrev system2 : System
  system2 = happen host cfg (move j) system1

  abbrev call1 : Call
  call1 = moved host cfg c s.world

  world1 : system1.world ≡ inserted.1
  unfolding happen
  world1 = (move_call_self host cfg i s.calls s.world c here).1 ∙ ap (λ x. x.1) first_step

  here1' : get_elem? system1.calls j ≡ some c'
  unfolding happen
  here1' = move_call_other host cfg j i s.calls s.world (λ e. apart (sym e)) ∙ here'

  second_step :
      (w : World)
      → (call_step host cfg c' c'.stage w).1 ≡ (step (insert_repo c'.name c'.desc c'.is_public) w).1
  unfolding call_step
  second_step w = ap (λ st. (call_step host cfg c' st w).1) fresh'

  world2 : system2.world ≡ inserted'.1
  unfolding happen
  world2 =
      (move_call_self host cfg j system1.calls system1.world c' here1').1
      ∙ second_step system1.world
      ∙ ap (λ w. (step (insert_repo c'.name c'.desc c'.is_public) w).1) world1

  here2 : get_elem? system2.calls i ≡ some call1
  unfolding happen
  here2 =
      move_call_other host cfg i j system1.calls system1.world apart
      ∙ (move_call_self host cfg i s.calls s.world c here).0

  here3 :
      get_elem? (happen host cfg (move i) system2).calls i
      ≡ some (moved host cfg call1 system2.world)
  unfolding happen
  here3 = (move_call_self host cfg i system2.calls system2.world call1 here2).0

  stage1 : (code : Code) → inserted.0 ≡ code → call1.stage ≡ after_insert code
  stage1 code e = ap (λ x. x.0) first_step ∙ ap after_insert e

  -- What the third step comes to: the id of the last row, or a failure.
  third-Holds :
      (code : Code) (k : ℕ)
      → inserted.0 ≡ code
      → (code ≡ done → inserted'.1.db.last_rowid ≡ k)
      → Holds k (moved host cfg call1 system2.world).stage
  unfolding call_step
  third-Holds done k e id =
      subst (λ st. Holds k (call_step host cfg call1 st system2.world).0) (sym (stage1 done e))
        (ap (λ x. x.db.last_rowid) world2 ∙ id refl)
  third-Holds constraint k e id =
      subst (λ st. Holds k (call_step host cfg call1 st system2.world).0)
        (sym (stage1 constraint e)) tt
  third-Holds error k e id =
      subst (λ st. Holds k (call_step host cfg call1 st system2.world).0) (sym (stage1 error e)) tt

  module _ (es : List Event) (c'' : Call) (p : ℕ)
      (ends : get_elem? (play host cfg (move i ∷ move j ∷ move i ∷ es) s).calls i ≡ some c'')
      (result : c''.stage ≡ returned (created p)) where
    ends_with : (k : ℕ) → Holds k (moved host cfg call1 system2.world).stage → p ≡ k
    unfolding play
    ends_with k h =
        let (c2, g2, h2) =
          play-Holds host cfg k es (happen host cfg (move i) system2) i
            (moved host cfg call1 system2.world) here3 h in
        let same : c2 ≡ c'' = cc (ends, g2) in subst (Holds k) (ap (λ x. x.stage) same ∙ result) h2

    overtaken :
        (code : Code)
        → inserted.0 ≡ code
        → inserted'.0 ≡ done
        → (repo_get_id c'.name inserted'.1.db ≡ some p)
          × ((q : ℕ) × (repo_get_id c.name inserted'.1.db ≡ some q) × (q ≢ p))
    overtaken done e e' =
        let (free, rows, id) = created_repo s.world c.name c.desc c.is_public e in
        let (free', rows', id') = created_repo inserted.1 c'.name c'.desc c'.is_public e' in
        let seq = inserted-seq_repos s.world c.name c.desc c.is_public e in
        let same = ends_with (suc inserted.1.db.seq_repos) (third-Holds done _ e (λ x. id')) in
        (
          found_last inserted.1.db inserted'.1.db _ free' rows' ∙ ap some (sym same),
          (
            suc s.world.db.seq_repos,
            found_still s.world.db inserted.1.db inserted'.1.db _ _ free rows rows',
            λ x. absurd (omega (arith, same, seq, x)),
          ),
        )
    overtaken constraint e e' =
        absurd (omega (arith, ends_with (suc p) (third-Holds constraint _ e (λ x. absurd (cc x)))))
    overtaken error e e' =
        absurd (omega (arith, ends_with (suc p) (third-Holds error _ e (λ x. absurd (cc x)))))

    -- Between the insertion of one call and its reading of the id another call inserts a row, and nothing
    -- else happens there. Then, whatever happens afterwards, an id that the first call returns is that
    -- of the other call's row: the name of its own repository is found with another id.
    pub create_race :
        inserted'.0 ≡ done
        → (repo_get_id c'.name
              (step
                (insert_repo c'.name c'.desc c'.is_public)
                (step (insert_repo c.name c.desc c.is_public) s.world).1).1.db
            ≡ some p)
          × ((q : ℕ) × (repo_get_id c.name
                  (step
                    (insert_repo c'.name c'.desc c'.is_public)
                    (step (insert_repo c.name c.desc c.is_public) s.world).1).1.db
                ≡ some q)
              × (q ≢ p))
    create_race e' = overtaken inserted.0 refl e'
