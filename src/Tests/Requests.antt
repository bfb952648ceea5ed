-- ===== src/Tests/Requests.antt =====
-- Runs of the two endpoints: user 1 calls model 7 of user 2.
use model_deployer.Base.{
  ℕ, ◌+◌, ◌≡◌, ◌≢◌, ◌↔◌, refl, inr, Bool, replicate, arith, true, false, none, some, List, [], ◌∷◌,
}
use model_deployer.Base.Int.{pos, ◌+ℤ◌, ◌-ℤ◌}
use model_deployer.Base.Dict.{lookup, insert}
use model_deployer.Billing.{
  get_or_create, debit_credits, charge, settle, save_spent, save_earned, create_entry,
}
use model_deployer.Manifest.{Instance, array, validate_prediction_instances}
use model_deployer.Manifest.Rows.{Consistent, validate_prediction_instances_iff}
use model_deployer.Gateway.{
  Model, Served, replied, body, raised, insufficient_credits, State, has_runner, cache_get,
  cache_set,
}
use model_deployer.Gateway.Flight.Threads.{run, step_at, no_flight, done}
use model_deployer.Gateway.Flight.Leaders.{run-leading, run-done}
use model_deployer.Gateway.Flight.{Readings, execute}
use model_deployer.Gateway.Predict
use model_deployer.Gateway.Predict.Logs.{Logged, serve-Logged}
use model_deployer.Gateway.Universal
use model_deployer.Gateway.Universal.Fees.{paid_row, reserve-Paid}
use model_deployer.Tests.Books.{columns, columns-IsExact, opened, paid, two-Whole, even_purse}
use model_deployer.Billing.Posting.{Whole}

abbrev model : Model
model = record { id = 7; owner = 2; framework = "sklearn"; is_public = true; cost_per_run = 100 }

abbrev served : Served
served = record { deployment = 5; model_version = 9 }

abbrev rows : List (Instance ℕ)
rows = array (1 ∷ 2 ∷ []) ∷ array (3 ∷ 4 ∷ []) ∷ []

-- The runner answers `code` with the body 42, and the cache is up.
abbrev paid_service : ℕ → Universal.Service ℕ ℕ
paid_service code = record {
  billing_enabled = true;
  starting = pos 1000;
  cols = columns;
  key = λ m version rows. m + version;
  cache_readable = true;
  cache_writable = true;
  call = replied code 42;
}

abbrev before : State ℕ
before = record { books = opened; cache = []; logs = [] }

abbrev fair : Universal.Service ℕ ℕ
fair = paid_service 200

abbrev after : State ℕ
after = record {
  books = paid;
  cache = (16, 42) ∷ [];
  logs = Universal.log fair 1 model served (some 42) false true true ∷ [];
}

serving : Universal.reserve fair 1 model served rows before ≡ (body 200 42, after)
unfolding Universal.reserve Universal.serve Universal.serve_cold has_runner cache_get cache_set
    debit_credits get_or_create lookup insert charge settle save_spent save_earned create_entry ◌+ℤ◌
    ◌-ℤ◌
serving = refl

opened-Whole : Whole (get_or_create (pos 1000) 2 (get_or_create (pos 1000) 1 opened))
unfolding get_or_create lookup
opened-Whole = two-Whole _ _ opened (even_purse 500 0 0) (even_purse 500 0 0) refl

paying : debit_credits columns (pos 1000) 1 2 7 (pos 200) opened ≡ some ((some 0, pos 800), paid)
unfolding debit_credits get_or_create lookup insert charge settle save_spent save_earned
    create_entry ◌+ℤ◌ ◌-ℤ◌
paying = refl

body-ne-raised : {D : Type 0} (code : ℕ) (output : D) → body code output ≢ raised
body-ne-raised code output e = cc

body-ne-poor : {D : Type 0} (code : ℕ) (output : D) → body code output ≢ insufficient_credits
body-ne-poor code output e = cc

-- The owner's wallet after a call that succeeds.
reserve-Paid_example :
    lookup 2 paid.wallets
    ≡ paid_row false true
        (Universal.full_price model -ℤ pos 0)
        (lookup 2 (get_or_create (pos 1000) 2 (get_or_create (pos 1000) 1 opened)).wallets)
unfolding cache_get lookup
reserve-Paid_example =
    reserve-Paid fair columns-IsExact 1 model served rows before after (body 200 42) refl refl
      opened-Whole serving (body-ne-raised 200 42) (body-ne-poor 200 42) 2

abbrev odd_model : Model
odd_model = record model { framework = "xgboost" }

abbrev dear_model : Model
dear_model = record model { cost_per_run = 700 }

short : debit_credits columns (pos 1000) 1 2 7 (pos 1400) opened ≡ some ((none, pos 1000), opened)
unfolding debit_credits get_or_create lookup insert ◌+ℤ◌ ◌-ℤ◌
short = refl

validate_prediction_instances_iff_example :
    (validate_prediction_instances rows ≡ none) ↔ Consistent rows
validate_prediction_instances_iff_example = validate_prediction_instances_iff rows

-- A waiter that finds the leader's result at its second poll.
abbrev waiting : Readings ℕ
waiting = record {
  first = none;
  acquired = false;
  second = none;
  polls = (none, false) ∷ (some 42, false) ∷ [];
}

abbrev leading : Readings ℕ
leading = record { first = none; acquired = true; second = none; polls = [] }

abbrev page : Readings ℕ → Predict.Service ℕ ℕ
page readings = record {
  key = λ m version rows. m + version;
  cache_readable = true;
  cache_writable = true;
  call = replied 200 42;
  bodies = record { error = λ _. none; error_body = λ _. 0 };
  readings = readings;
}

serve-Logged_example :
    Logged 1 model before (Predict.serve (page leading) 1 model served rows before)
unfolding Predict.serve Predict.serve_call Predict.pass_on Predict.serve_cached has_runner cache_get
    cache_set lookup execute
serve-Logged_example =
    serve-Logged (page leading) 1 model served before rows (body-ne-raised 200 42)

-- Request 0 leads; then it makes eight late steps.
abbrev lead : List (Bool × Bool × ℕ)
lead = (false, true, 0) ∷ (false, true, 0) ∷ (false, true, 0) ∷ []

abbrev hurry : List (Bool × Bool × ℕ)
hurry = replicate 8 (true, false, 4)

run-leading_example : ◌≡◌ {A = ℕ} 0 0
unfolding run step_at
run-leading_example = run-leading lead 0 0 refl refl

run-done_example : (run hurry (run lead no_flight)).phases 4 ≡ done
run-done_example =
    run-done lead hurry 4
      (
        inr refl,
        (inr refl, (inr refl, (inr refl, (inr refl, (inr refl, (inr refl, (inr refl, tt))))))),
      )
      (omega arith)
