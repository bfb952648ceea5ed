-- ===== src/ApiKeys.antt =====
-- api_keys/models.py and views.py, with prediction_gateway/permissions.py and authentication.py: the
-- keys of one model, and the keys of a user for every model.
--
-- `hash_api_key` is SHA-256 of hashlib, so it is a parameter; what `secrets` generates comes from
-- outside. Names and times of creation are left out.
pub mod Rights
use model_deployer.Base.{
  ℕ, zero, suc, String, Bool, true, false, Option, none, some, List, [], ◌∷◌, ◌++◌, ◌==◌, ◌&&◌, not,
  any_of, map, str_eq, if◌then◌else◌,
}
use model_deployer.Base.Dict.{Dict, lookup}
use Prim.Native.String.{find}
use Prim.Native.String.{◌++◌ as ◌<>◌}

pub record ApiKey : Type 0 where
  pub key_hash : String
  pub user : ℕ
  pub model : ℕ
  pub is_active : Bool

pub record UniversalApiKey : Type 0 where
  pub user : ℕ
  pub prefix : String
  pub hashed_key : String
  pub is_active : Bool
  pub last_used_at : Option ℕ

-- `APIKeyListCreateAPIView.post`, with the model's owner where the model exists: `none` is the 404,
-- or the `IntegrityError` of a digest that is there.
unfoldable pub create_key :
    (String → String) → String → ℕ → ℕ → ℕ → Option ℕ → Dict ApiKey → Option (Dict ApiKey)
create_key hash raw_key id user model owner keys = elim owner [
  | none ↦ none
  | some owned_by ↦
      if not (owned_by == user)
      then none
      else (if any_of (λ e. str_eq e.1.key_hash (hash raw_key)) keys
          then none
          else some (
              keys
              ++ (
                id,
                record { key_hash = hash raw_key; user = user; model = model; is_active = true },
              )
                ∷ []))
]

-- `APIKeyDeactivateAPIView.post`; `none` is the 404.
unfoldable pub set_inactive : ℕ → Dict ApiKey → Dict ApiKey
set_inactive id [] = []
set_inactive id (e ∷ keys) =
    let rest = set_inactive id keys in
    if e.0 == id then (e.0, record e.1 { is_active = false }) ∷ rest else e ∷ rest

unfoldable pub deactivate_key : ℕ → ℕ → Dict ApiKey → Option (Dict ApiKey)
deactivate_key user id keys = elim (lookup id keys) [
  | none ↦ none
  | some key ↦ if key.user == user then some (set_inactive id keys) else none
]

-- `APIKey.objects.get(key_hash=…, is_active=True, model_id=…)`
unfoldable pub find_key : String → ℕ → Dict ApiKey → Option ApiKey
find_key key_hash model [] = none
find_key key_hash model (e ∷ keys) =
    if str_eq e.1.key_hash key_hash && (e.1.is_active && e.1.model == model)
    then some e.1
    else find_key key_hash model keys

-- `HasValidModelAPIKey.has_permission`; an empty header is as good as none.
unfoldable pub has_permission : (String → String) → ℕ → ℕ → Option String → Dict ApiKey → Bool
has_permission hash user model api_key keys = elim api_key [
  | none ↦ false
  | some raw ↦
      if str_eq raw ""
      then false
      else elim (find_key (hash raw) model keys) [ none ↦ false | some key ↦ key.user == user ]
]

-- Who `UniversalOrJWTAuthentication.authenticate` takes a request to be from: nobody, a user, or
-- whoever the JWT names; or it raises AuthenticationFailed.
pub data Identity : Type 0 where
  anonymous : Identity
  key_user : ℕ → Identity
  by_jwt : Identity
  rejected : Identity

unfoldable pub find_universal :
    String → String → Dict UniversalApiKey → Option (ℕ × UniversalApiKey)
find_universal prefix hashed [] = none
find_universal prefix hashed (e ∷ keys) =
    if str_eq e.1.prefix prefix && (str_eq e.1.hashed_key hashed && e.1.is_active)
    then some e
    else find_universal prefix hashed keys

unfoldable pub touch : ℕ → ℕ → Dict UniversalApiKey → Dict UniversalApiKey
touch id now [] = []
touch id now (e ∷ keys) =
    let rest = touch id now keys in
    if e.0 == id then (e.0, record e.1 { last_used_at = some now }) ∷ rest else e ∷ rest

-- `token.startswith("md_live_")`; `first_12` is `token[:12]`.
abbrev pub is_universal : String → Bool
is_universal token = find token "md_live_" == 0

unfoldable pub authenticate :
    (String → String)
    → (String → String)
    → ℕ
    → Option String
    → Dict UniversalApiKey
    → Identity × Dict UniversalApiKey
authenticate hash first_12 now token keys = elim token [
  | none ↦ (anonymous, keys)
  | some raw ↦
      if str_eq raw ""
      then (anonymous, keys)
      else (if is_universal raw
          then elim (find_universal (first_12 raw) (hash raw) keys) [
            | none ↦ (rejected, keys)
            | some (id, key) ↦ (key_user key.user, touch id now keys)
          ]
          else (by_jwt, keys))
]

-- `X-API-Key`, or the second word of an `Authorization` that begins with "Bearer ".
abbrev pub token_of : Option String → Option String → Option String
token_of none bearer = bearer
token_of (some key) bearer = if str_eq key "" then bearer else some key

-- `UniversalKeyListCreateAPIView.post`; `none` is the `IntegrityError`.
unfoldable pub create_universal :
    (String → String)
    → (String → String)
    → String
    → ℕ
    → ℕ
    → Dict UniversalApiKey
    → Option (Dict UniversalApiKey)
create_universal hash first_12 hex id user keys =
    let raw = "md_live_" <> hex in
    if any_of (λ e. str_eq e.1.hashed_key (hash raw)) keys
    then none
    else some (
        keys
        ++ (
          id,
          record {
            user = user;
            prefix = first_12 raw;
            hashed_key = hash raw;
            is_active = true;
            last_used_at = none;
          },
        )
          ∷ [])

-- `UniversalKeyDeleteAPIView.delete`; `none` is the 404.
unfoldable pub set_revoked : ℕ → Dict UniversalApiKey → Dict UniversalApiKey
set_revoked id [] = []
set_revoked id (e ∷ keys) =
    let rest = set_revoked id keys in
    if e.0 == id then (e.0, record e.1 { is_active = false }) ∷ rest else e ∷ rest

unfoldable pub revoke_universal : ℕ → ℕ → Dict UniversalApiKey → Option (Dict UniversalApiKey)
revoke_universal user id keys = elim (lookup id keys) [
  | none ↦ none
  | some key ↦ if key.user == user then some (set_revoked id keys) else none
]
