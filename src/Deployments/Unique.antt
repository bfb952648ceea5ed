-- ===== src/Deployments/Unique.antt =====
-- At most one active deployment for each model version.
use model_deployer.Base.{
  ℕ, ◌≡◌, ◌≢◌, refl, sym, ap, ◌∙◌, Bool, true, false, Option, some, [], ◌∷◌, arith, ◌==◌, ◌&&◌,
  if◌then◌else◌, Bool-cases, ◌⊎◌, inl, inr,
}
use mathlib.Core.Option.{none-ne-some, some-injective}
use mathlib.Core.Bool.{true≢false}
use model_deployer.Base.Dict.{lookup, insert, lookup-insert, lookup-insert_self, lookup-insert_ne}
use model_deployer.Deployments.Views.{accepted, conflict, new_deployment, create}
use model_deployer.Deployments.{
  Status, pending, building, running, failed, stopped, Deployment, is_active, Table, taken, save,
}

-- A deployment is over once it is FAILED or STOPPED; until then it is active.
abbrev pub IsActive : Status → Type 0
IsActive s = (s ≢ failed) × (s ≢ stopped)

is_active-IsActive : (s : Status) → IsActive s → is_active s ≡ true
is_active-IsActive failed a = absurd (a.0 refl)
is_active-IsActive stopped a = absurd (a.1 refl)
is_active-IsActive pending a = refl
is_active-IsActive building a = refl
is_active-IsActive running a = refl

abbrev pub UniqueActive : Table → Type 0
UniqueActive t =
    (i j : ℕ) (d e : Deployment)
    → lookup i t ≡ some d
    → lookup j t ≡ some e
    → IsActive d.status
    → IsActive e.status
    → d.model_version ≡ e.model_version
    → i ≡ j

taken_sound :
    (version id k : ℕ) (d : Deployment) (t : Table)
    → lookup k t ≡ some d
    → k ≢ id
    → is_active d.status ≡ true
    → d.model_version ≡ version
    → taken version id t ≡ true
unfolding lookup taken
taken_sound version id k d [] l ne a v = cc
taken_sound version id k d ((j, e) ∷ t) l ne a v = ground (arith, taken_sound version id k d t)

pub save_inv :
    (d : Deployment) (t t' : Table)
    → save d t ≡ some t'
    → (t' ≡ insert d.id d t) × (is_active d.status ≡ true → taken d.model_version d.id t ≡ false)
unfolding save
save_inv d t t' e = elim (Bool-cases (is_active d.status && taken d.model_version d.id t)) [
  | inl clash ↦ (let h = rw clash at e in absurd (none-ne-some _ h))
  | inr fine ↦ (let h = rw fine at e in (sym (some-injective _ _ h), λ a. ground arith))
]

-- A row that the constraint accepts shares its version with no other active row.
alone :
    (d x : Deployment) (k : ℕ) (t : Table)
    → (is_active d.status ≡ true → taken d.model_version d.id t ≡ false)
    → is_active d.status ≡ true
    → lookup k t ≡ some x
    → is_active x.status ≡ true
    → x.model_version ≡ d.model_version
    → k ≡ d.id
alone d x k t free a l ax v = elim (Bool-cases (k == d.id)) [
  | inl same ↦ ground arith
  | inr other ↦
      let ne : k ≢ d.id = ground arith in
      absurd (true≢false (sym (taken_sound d.model_version d.id k x t l ne ax v) ∙ free a))
]

-- Where every version has at most one deployment that is neither FAILED nor STOPPED, this holds
-- after each row that the constraint lets through.
pub save-UniqueActive :
    (d : Deployment) (t t' : Table) → UniqueActive t → save d t ≡ some t' → UniqueActive t'
save-UniqueActive d t t' u e i j x y lx ly active_x active_y v =
    let (p, free) = save_inv d t t' e in
    go (i == d.id) (j == d.id) refl refl (sym (lookup-insert i d.id d t) ∙ rw p at lx)
      (sym (lookup-insert j d.id d t) ∙ rw p at ly)
  where
    ax : is_active x.status ≡ true
    ax = is_active-IsActive x.status active_x

    ay : is_active y.status ≡ true
    ay = is_active-IsActive y.status active_y

    go :
        (bi bj : Bool)
        → (i == d.id) ≡ bi
        → (j == d.id) ≡ bj
        → (if bi then some d else lookup i t) ≡ some x
        → (if bj then some d else lookup j t) ≡ some y
        → i ≡ j
    go true true ei ej hx hy = ground arith
    go true false ei ej hx hy =
        let p = some-injective d x hx in
        let q : i ≡ d.id = ground arith in
        q
        ∙ sym (
            alone d y j t (save_inv d t t' e).1 (rw p ax) hy ay
              (sym v ∙ ap (λ (z : Deployment). z.model_version) (sym p)))
    go false true ei ej hx hy =
        let p = some-injective d y hy in
        let q : j ≡ d.id = ground arith in
        alone d x i t (save_inv d t t' e).1 (rw p ay) hx ax
          (v ∙ ap (λ (z : Deployment). z.model_version) (sym p))
        ∙ sym q
    go false false ei ej hx hy = u i j x y hx hy active_x active_y v

-- An accepted `create` answers with the new PENDING row, which is what it adds to the table that
-- other requests have left. No other active row of the version was there at the INSERT, whatever
-- they did since the check.
pub create_lem :
    (id version now : ℕ) (meanwhile : Table → Table) (t : Table) (d : Deployment) (t' : Table)
    → create id version now meanwhile t ≡ (accepted d, t')
    → (d ≡ new_deployment id version now)
      × (taken version id (meanwhile t) ≡ false)
      × (t' ≡ insert id d (meanwhile t))
unfolding create save
create_lem id version now meanwhile t d t' e = ground arith

-- A refused `create` keeps the table: as it was at the check, or as other requests left it at an
-- INSERT that the constraint has refused for an active row of the version.
pub create_conflict :
    (id version now : ℕ) (meanwhile : Table → Table) (t : Table) (found : Option (ℕ × Status))
    (t' : Table)
    → create id version now meanwhile t ≡ (conflict found, t')
    → (t' ≡ t) ⊎ ((t' ≡ meanwhile t) × (taken version id (meanwhile t) ≡ true))
unfolding create save
create_conflict id version now meanwhile t found t' e = ground arith

pub save-at :
    (row : Deployment) (id : ℕ) (t t' : Table)
    → row.id ≡ id
    → save row t ≡ some t'
    → (lookup id t' ≡ some row) × ((k : ℕ) → k ≢ id → lookup k t' ≡ lookup k t)
save-at row id t t' e s =
    let p = (save_inv row t t' s).0 in
    rw (p, ← e) (lookup-insert_self row.id row t, λ k ne. lookup-insert_ne k row.id row t ne)
