-- ===== src/Suites/MaxRate.antt =====
-- maxrate_test.py of zmqtest and kafkatest: the highest rate for each number of clients, and the
-- highest without dropped messages. The searches under `if False` are left out.
use m_scale.Common.{
  ℕ, ◌-◌, ◌*◌, ◌/◌, Bool, true, false, Option, none, some, List, [], ◌∷◌, Exec, pure, raise, ◌>>=◌,
  ◌>>◌, type_error, ltb, if◌then◌else◌, not, raised,
}
use m_scale.Integer.{pos, negsuc, eqb_ℤ}
use m_scale.Scanner.{Goal, Climb, Found}
use m_scale.Scanner.Raising.{raising_search, raising_find_max_rate}
use m_scale.Zmq.RunTest.{Options}
use m_scale.Suites.{Harness, prepare, finish}

-- The options of the suite: those of the test, and two that the test does not read.
pub record SuiteOptions : Type 0 where
  pub options : Options
  pub reconnecting_clients_percent : ℕ
  pub flaky_clients : Bool

abbrev pub zmq_clients : List ℕ
zmq_clients = 30 ∷ 60 ∷ 90 ∷ 180 ∷ 500 ∷ 1000 ∷ 2000 ∷ 4000 ∷ 8000 ∷ []

abbrev pub kafka_clients : List ℕ
kafka_clients = 30 ∷ 60 ∷ 120 ∷ 240 ∷ 480 ∷ 960 ∷ 1920 ∷ 3840 ∷ 7680 ∷ 10000 ∷ []

-- Where the climb starts.
unfoldable pub first_rate : ℕ → ℕ
first_rate client_count =
    if ltb client_count 50 then 30000 else if ltb client_count 200 then 10000 else 500

-- The `setattr`s at the start of a round of the ZeroMQ suite.
unfoldable pub round_options : ℕ → SuiteOptions → SuiteOptions
round_options client_count o = record o {
  options = record o.options { total_sub_apps = client_count / 10; slow_clients_percent = 0 };
  reconnecting_clients_percent = 0;
}

-- The options of the search with slow clients, and of that with reconnecting ones.
unfoldable pub slow_options : ℕ → ℕ → SuiteOptions → SuiteOptions
slow_options unit nodrop_rate o = record o {
  options = record o.options {
    slow_clients_percent = 10;
    slow_clients_rate = nodrop_rate / 2;
    rec_clients_percent = 0;
    rec_clients_rate = 2 * unit;
  };
}

unfoldable pub rec_options : ℕ → ℕ → SuiteOptions → SuiteOptions
rec_options unit nodrop_rate o = record o {
  options = record o.options {
    slow_clients_percent = 0;
    slow_clients_rate = nodrop_rate / 2;
    rec_clients_percent = 10;
    rec_clients_rate = 2 * unit;
  };
}

-- `search(0.5, 0.01)`
abbrev pub half_percent : ℕ → Goal
half_percent unit = record {
  expected_result = pos (unit / 2);
  num = 1;
  den = 100;
  minus_one = negsuc (unit - 1);
}

module _ {O S : Type 0} (h : Harness O S) (unit fuel : ℕ) where
  -- `maxrate_rate`, which is never None after a run.
  unfoldable pub max_rate : Climb → Exec S ℕ
  max_rate c = elim c.max_value_rate [ none ↦ raise type_error | some rate ↦ pure rate ]

  -- `Scanner(runner.run, rate / 2).search(0.5, 0.01)`
  unfoldable pub search_below : ℕ → Exec S (Option Found)
  search_below rate = raising_search h.run (half_percent unit) fuel (rate / 2)

  -- `nodrop_rate`: that of the search below the highest rate, where messages were dropped.
  unfoldable pub nodrop_rate : Climb → ℕ → Exec S (Option ℕ)
  unfolding search_below
  nodrop_rate c rate =
      if not (eqb_ℤ c.max_value_drop (pos 0))
      then (do
        f ← search_below rate
        elim f [ none ↦ pure none | some found ↦ pure (some found.best_rate) ])
      else pure (some rate)

  -- The climb and the first search of a round: the highest rate and that without drops.
  unfoldable pub find_rates : ℕ → Exec S (Option (ℕ × ℕ))
  unfolding first_rate max_rate nodrop_rate
  find_rates client_count = do
    c ← raising_find_max_rate h.run unit fuel (first_rate client_count * unit)
    elim c [
      | none ↦ pure none
      | some climb ↦ (do
        rate ← max_rate climb
        n ← nodrop_rate climb rate
        elim n [ none ↦ pure none | some nodrop ↦ pure (some (rate, nodrop)) ])
    ]

module _ {S : Type 0} (h : Harness Options S) (unit fuel : ℕ) where
  -- The searches with flaky clients.
  unfoldable pub flaky_searches : ℕ × ℕ → SuiteOptions → Exec S (Option SuiteOptions)
  unfolding slow_options rec_options search_below
  flaky_searches (rate, nodrop) o = do
    let slow = slow_options unit nodrop o
    h.set_options slow.options
    f ← search_below h unit fuel rate
    elim f [
      | none ↦ pure none
      | some found ↦ (do
        let rec = rec_options unit nodrop slow
        h.set_options rec.options
        g ← search_below h unit fuel rate
        elim g [ none ↦ pure none | some found' ↦ pure (some rec) ])
    ]

  -- What follows the first search of a round.
  unfoldable pub flaky_round : Option (ℕ × ℕ) → SuiteOptions → Exec S (Option SuiteOptions)
  unfolding flaky_searches
  flaky_round none o = pure none
  flaky_round (some rates) o = if o.flaky_clients then flaky_searches rates o else pure (some o)

  -- A round of the ZeroMQ suite, with the options that it leaves.
  unfoldable pub zmq_round : Bool → ℕ → SuiteOptions → Exec S (Option SuiteOptions)
  unfolding round_options prepare find_rates flaky_round
  zmq_round first client_count o = do
    let start = round_options client_count o
    prepare h first start.options
    rates ← find_rates h unit fuel client_count
    flaky_round rates start

  -- The rounds after the first.
  unfoldable pub zmq_rounds : List ℕ → SuiteOptions → Exec S (Option SuiteOptions)
  unfolding zmq_round
  zmq_rounds [] o = pure (some o)
  zmq_rounds (client_count ∷ clients) o = do
    r ← zmq_round false client_count o
    elim r [ none ↦ pure none | some o' ↦ zmq_rounds clients o' ]

  -- `RunSuitMaxRate.__init__` of zmqtest for the numbers of clients of `client_set`: without one there
  -- is no `runner`.
  unfoldable pub zmq_maxrate : List ℕ → SuiteOptions → Exec S (Option (Unit {0}))
  unfolding zmq_round zmq_rounds finish
  zmq_maxrate [] o = raise (raised "UnboundLocalError")
  zmq_maxrate (client_count ∷ clients) o = do
    r ← zmq_round true client_count o
    elim r [
      | none ↦ pure none
      | some o' ↦ (do
        rs ← zmq_rounds clients o'
        elim rs [ none ↦ pure none | some o'' ↦ (finish h >> pure (some tt)) ])
    ]

module _ {S : Type 0} (h : Harness Options S) (unit fuel : ℕ) where
  unfoldable pub zmq_suite : SuiteOptions → Exec S (Option (Unit {0}))
  unfolding zmq_maxrate
  zmq_suite = zmq_maxrate h unit fuel zmq_clients

module _ {O S : Type 0} (h : Harness O S) (unit fuel : ℕ) (options_for : ℕ → O) where
  -- A round of the Kafka suite; `options_for` are its options for a number of subscriber apps.
  unfoldable pub kafka_round : Bool → ℕ → Exec S (Option (ℕ × ℕ))
  unfolding prepare find_rates
  kafka_round first client_count = do
    prepare h first (options_for (client_count / 10))
    find_rates h unit fuel client_count

  unfoldable pub kafka_rounds : Bool → List ℕ → Exec S (Option (Unit {0}))
  unfolding kafka_round
  kafka_rounds first [] = pure (some tt)
  kafka_rounds first (client_count ∷ clients) = do
    r ← kafka_round first client_count
    elim r [ none ↦ pure none | some rates ↦ kafka_rounds false clients ]

  -- `RunSuitMaxRate.__init__` of kafkatest.
  unfoldable pub kafka_maxrate : Exec S (Option (Unit {0}))
  unfolding kafka_rounds finish
  kafka_maxrate = do
    r ← kafka_rounds true kafka_clients
    elim r [ none ↦ pure none | some u ↦ (finish h >> pure (some tt)) ]
