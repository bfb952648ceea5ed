-- ===== src/Tests/Keys.antt =====
-- Runs of the keys: user 3 makes the key 1 for the model 7, and takes it back; the digest of a text
-- is the text.
use model_deployer.Base.{
  ◌≡◌, ◌≢◌, inl, refl, String, Bool, true, false, some, [], ◌∷◌, ◌==◌, ◌&&◌, arith, eq_iff,
}
use model_deployer.Base.Dict.{lookup}
use model_deployer.ApiKeys.{ApiKey, create_key, deactivate_key, set_inactive, has_permission}
use model_deployer.ApiKeys.Rights.{deactivate_key-Closed, create_key-Opens}

abbrev key : Bool → ApiKey
key active = record { key_hash = "5ecret"; user = 3; model = 7; is_active = active }

full : ◌≢◌ {A = String} "5ecret" ""
full h = ground (arith, eq_iff "5ecret" "")

create_key-Opens_example :
    has_permission (λ s. s) 3 7 (some "5ecret") ((1, key true) ∷ []) ≡ (3 == 3 && 7 == 7)
unfolding create_key
create_key-Opens_example =
    create_key-Opens (λ s. s) "5ecret" 1 3 7 [] ((1, key true) ∷ []) 3 7 (some 3) refl full

deactivate_key-Closed_example :
    has_permission (λ s. s) 3 7 (some "5ecret") ((1, key false) ∷ []) ≡ false
unfolding deactivate_key set_inactive lookup
deactivate_key-Closed_example =
    deactivate_key-Closed (λ s. s) 3 1 3 7 "5ecret" ((1, key true) ∷ []) ((1, key false) ∷ []) refl
      (inl refl, tt)
