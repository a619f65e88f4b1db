-- ===== src/Rmq/Results.antt =====
-- `result_parser` of rmqtest/runtest.py against that of zmqtest/runtest.py.
use m_scale.Common.{
  ℕ, ◌+◌, ◌≡◌, refl, arith, false, none, List, [], ◌∷◌, length, All, nat_eq, ◌==◌, ap, ◌∙◌, sym,
}
use m_scale.Hydra.{Stats}
use m_scale.Zmq.Report.{
  Tally, no_clients, tally, tally_client, tally_valid, result_of, result_parser,
}
use m_scale.Rmq.{tally_all, without_valid_cnt, rmq_result_parser}

client_lem :
    (tx : ℕ) (k : Tally) (s : Stats)
    → (s.msg_cnt == 0) ≡ false
    → tally_client none none tx k s ≡ tally_valid tx k s
unfolding tally_client
client_lem tx k s h = ground (arith, h)

same_tally :
    (tx : ℕ) (k : Tally) (stats : List Stats)
    → All (λ s. (s.msg_cnt == 0) ≡ false) stats
    → tally none none tx k stats ≡ tally_all tx k stats
unfolding tally tally_all
same_tally tx k [] h = refl
same_tally tx k (s ∷ stats) h =
    ap (λ q. tally none none tx q stats) (client_lem tx k s h.0)
    ∙ same_tally tx (tally_valid tx k s) stats h.1

count_all :
    (tx : ℕ) (k : Tally) (stats : List Stats)
    → (tally_all tx k stats).valid_client_cnt ≡ k.valid_client_cnt + length stats
unfolding tally_all tally_valid
count_all tx k [] = ground arith
count_all tx k (s ∷ stats) = ground (arith, count_all tx (tally_valid tx k s) stats)

-- Where each client received something and none is set to be slow or to reconnect, the tests for
-- RabbitMQ and for ZeroMQ get the same result from the same statistics, or the same exception, but
-- for the entry `valid_client_cnt`, which only that for ZeroMQ has.
pub rmq_result_parser-result_parser :
    (p : Stats) (stats : List Stats)
    → All (λ s. (s.msg_cnt == 0) ≡ false) stats
    → rmq_result_parser p stats ≡ without_valid_cnt (result_parser none none p stats)
unfolding rmq_result_parser result_parser
rmq_result_parser-result_parser p stats h =
    let all = tally_all p.msg_cnt no_clients stats in
    let size : length stats ≡ all.valid_client_cnt =
      omega (arith, count_all p.msg_cnt no_clients stats) in
    let counted : record all { valid_client_cnt = length stats } ≡ all =
      ap (λ n. record all { valid_client_cnt = n }) size in
    ap (λ k. without_valid_cnt (result_of p (length stats) k))
      (counted ∙ sym (same_tally p.msg_cnt no_clients stats h))
