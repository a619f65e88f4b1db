-- ===== src/Suites/Batches.antt =====
-- kafkatest/batchsize_test.py: a test for each number of clients and each size of a batch.
use m_scale.Common.{ℕ, ◌/◌, Bool, true, false, List, [], ◌∷◌, Exec, pure, ◌>>=◌, ◌>>◌}
use m_scale.Suites.{Harness, prepare}

abbrev pub client_set : List ℕ
client_set = 30 ∷ 60 ∷ 120 ∷ 240 ∷ 480 ∷ 960 ∷ 1920 ∷ []

abbrev pub msg_batch_set : List ℕ
msg_batch_set = 100 ∷ 200 ∷ 500 ∷ 1000 ∷ 2000 ∷ 5000 ∷ []

-- The options are those for a number of subscriber apps and a size of the batches.
module _ {O S : Type 0} (h : Harness O S) (options_for : ℕ → ℕ → O) where
  unfoldable pub run_batches : Bool → ℕ → List ℕ → Exec S Bool
  unfolding prepare
  run_batches first_test apps [] = pure first_test
  run_batches first_test apps (msg_batch ∷ sizes) = do
    prepare h first_test (options_for apps msg_batch)
    h.run_test
    run_batches false apps sizes

  unfoldable pub run_clients : Bool → List ℕ → Exec S Bool
  unfolding run_batches
  run_clients first_test [] = pure first_test
  run_clients first_test (client_num ∷ clients) = do
    first ← run_batches first_test (client_num / 10) msg_batch_set
    run_clients first clients

  -- `RunBatchTest.__init__`
  unfoldable pub run_batch_test : Exec S (Unit {0})
  unfolding run_clients
  run_batch_test = do
    first ← run_clients true client_set
    h.delete_all_launched_apps
    h.stop_appserver
