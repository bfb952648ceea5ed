-- ===== src/ApiKeys/Rights.antt =====
-- api_keys and prediction_gateway: what a key opens, and that a key that is taken back opens nothing.
use model_deployer.Base.{
  ℕ, String, true, false, Option, none, some, [], ◌∷◌, ◌++◌, ◌==◌, ◌&&◌, ◌≡◌, ◌≢◌, ◌⊎◌, refl, sym,
  subst, any_of, All, arith, Bool-cases, Option-cases, inl, inr, str_eq, eq_iff, if◌then◌else◌,
}
use model_deployer.Base.Dict.{Dict, lookup}
use model_deployer.ApiKeys.{
  ApiKey, UniversalApiKey, create_key, set_inactive, deactivate_key, find_key, has_permission,
  rejected, find_universal, is_universal, authenticate, set_revoked, revoke_universal,
}

-- The digest of a row is its own, but for the row with this id (`unique=True`).
abbrev pub OnlyAt : ℕ → String → Dict ApiKey → Type 0
OnlyAt id key_hash = All (λ e. (e.0 ≡ id) ⊎ (e.1.key_hash ≢ key_hash))

find_key-set_inactive :
    (id model : ℕ) (key_hash : String) (keys : Dict ApiKey)
    → OnlyAt id key_hash keys
    → find_key key_hash model (set_inactive id keys) ≡ none
unfolding find_key set_inactive
find_key-set_inactive id model key_hash [] only = refl
find_key-set_inactive id model key_hash (e ∷ keys) only =
    let rest : find_key key_hash model (set_inactive id keys) ≡ none =
      find_key-set_inactive id model key_hash keys only.1 in
    elim (Bool-cases (e.0 == id)) [
      | inl q ↦ rw q (ground (arith, rest))
      | inr q ↦ elim only.0 [
        | inl same ↦ absurd (ground arith)
        | inr differ ↦ rw q (ground (arith, rest, eq_iff e.1.key_hash key_hash))
      ]
    ]

-- A key that its user has taken back opens no model to anybody, at once.
pub deactivate_key-Closed :
    (hash : String → String) (owner id user model : ℕ) (raw : String) (keys keys' : Dict ApiKey)
    → deactivate_key owner id keys ≡ some keys'
    → OnlyAt id (hash raw) keys
    → has_permission hash user model (some raw) keys' ≡ false
unfolding deactivate_key has_permission
deactivate_key-Closed hash owner id user model raw keys keys' h only =
    elim (Option-cases (lookup id keys)) [
      | inl q ↦ absurd (ground arith)
      | inr (key, q) ↦
          let same : keys' ≡ set_inactive id keys = ground arith in
          rw (same, find_key-set_inactive id model (hash raw) keys only) (ground arith)
    ]

find_key-append :
    (key_hash : String) (model id : ℕ) (key : ApiKey) (keys : Dict ApiKey)
    → any_of (λ e. str_eq e.1.key_hash key_hash) keys ≡ false
    → find_key key_hash model (keys ++ (id, key) ∷ []) ≡ (
        if str_eq key.key_hash key_hash && (key.is_active && key.model == model)
        then some key
        else none)
unfolding find_key
find_key-append key_hash model id key [] fresh = refl
find_key-append key_hash model id key (e ∷ keys) fresh =
    ground (arith, find_key-append key_hash model id key keys)

-- A new key opens its model to its user, and to nobody else, and no other model.
pub create_key-Opens :
    (hash : String → String) (raw : String) (id owner model : ℕ) (keys keys' : Dict ApiKey)
    (user other : ℕ) (m : Option ℕ)
    → create_key hash raw id owner model m keys ≡ some keys'
    → raw ≢ ""
    → has_permission hash user other (some raw) keys' ≡ (owner == user && model == other)
unfolding create_key has_permission
create_key-Opens hash raw id owner model keys keys' user other m h full = elim (Option-cases m) [
  | inl q ↦ absurd (ground arith)
  | inr (o, q) ↦ elim (Bool-cases (o == owner)) [
    | inr foreign ↦ absurd (ground arith)
    | inl own ↦ elim (Bool-cases (any_of (λ e. str_eq e.1.key_hash (hash raw)) keys)) [
      | inl there ↦ absurd (ground arith)
      | inr fresh ↦
          let key : ApiKey = record {
            key_hash = hash raw;
            user = owner;
            model = model;
            is_active = true;
          } in
          let same : keys' ≡ keys ++ (id, key) ∷ [] = ground arith in
          let self : str_eq (hash raw) (hash raw) ≡ true = (eq_iff (hash raw) (hash raw)).1 refl in
          let sent : str_eq raw "" ≡ false = ground (arith, eq_iff raw "") in
          rw (same, find_key-append (hash raw) other id key keys fresh, self, sent) (ground arith)
    ]
  ]
]

abbrev pub OnlyUniversal : ℕ → String → Dict UniversalApiKey → Type 0
OnlyUniversal id hashed = All (λ e. (e.0 ≡ id) ⊎ (e.1.hashed_key ≢ hashed))

find_universal-set_revoked :
    (id : ℕ) (prefix hashed : String) (keys : Dict UniversalApiKey)
    → OnlyUniversal id hashed keys
    → find_universal prefix hashed (set_revoked id keys) ≡ none
unfolding find_universal set_revoked
find_universal-set_revoked id prefix hashed [] only = refl
find_universal-set_revoked id prefix hashed (e ∷ keys) only =
    let rest : find_universal prefix hashed (set_revoked id keys) ≡ none =
      find_universal-set_revoked id prefix hashed keys only.1 in
    elim (Bool-cases (e.0 == id)) [
      | inl q ↦ rw q (ground (arith, rest))
      | inr q ↦ elim only.0 [
        | inl same ↦ absurd (ground arith)
        | inr differ ↦ rw q (ground (arith, rest, eq_iff e.1.hashed_key hashed))
      ]
    ]

-- A universal key that its user has revoked is refused, and no row changes: it is not taken for a
-- JWT, nor for a request without a key.
pub revoke_universal-Rejected :
    (hash first_12 : String → String) (owner id now : ℕ) (raw : String)
    (keys keys' : Dict UniversalApiKey)
    → revoke_universal owner id keys ≡ some keys'
    → OnlyUniversal id (hash raw) keys
    → is_universal raw ≡ true
    → raw ≢ ""
    → authenticate hash first_12 now (some raw) keys' ≡ (rejected, keys')
unfolding revoke_universal authenticate
revoke_universal-Rejected hash first_12 owner id now raw keys keys' h only universal full =
    elim (Option-cases (lookup id keys)) [
      | inl q ↦ absurd (ground arith)
      | inr (key, q) ↦
          let same : keys' ≡ set_revoked id keys = ground arith in
          let sent : str_eq raw "" ≡ false = ground (arith, eq_iff raw "") in
          subst (λ k. authenticate hash first_12 now (some raw) k ≡ (rejected, k)) (sym same)
            (rw
              (
                authenticate,
                sent,
                universal,
                find_universal-set_revoked id (first_12 raw) (hash raw) keys only,
              )
              refl)
    ]
