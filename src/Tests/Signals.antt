-- ===== src/Tests/Signals.antt =====
-- Signals of noesis_harness/coordination.py on concrete tables.
use noesis_harness_agent_mem.Prelude.{ok, length, ◌≡◌, refl, inl, true, [], arith}
use noesis_harness_agent_mem.Table.{select, fetchone, count, update, order_by}
use noesis_harness_agent_mem.Coordination.Signals.{Signals, has_id, send, read}
use noesis_harness_agent_mem.Coordination.Signals.Delivery.{send-read}

program : Unit {0}
unfolding send read select fetchone count update order_by
program = tt

abbrev empty : Signals
empty = record { ttl = 86400; rows = [] }

abbrev one : Signals
one = (send empty "lead" "hello" "" "note" "" "" "t" "m" 10).1

broadcast_gone :
    (length (read one "worker-1" true "" 11 12).0 ≡ 1)
    × (length (read (read one "worker-1" true "" 11 12).1 "worker-2" true "" 13 14).0 ≡ 0)
unfolding program
broadcast_gone = (refl, refl)

send-read_example :
    ((send one "lead" "go" "worker-1" "task" "" "m" "t" "n" 20).0 ≡ ok "n")
    × (count
          (has_id "n")
          (read
            (send one "lead" "go" "worker-1" "task" "" "m" "t" "n" 20).1
            "worker-1"
            true
            ""
            21
            22).0
        ≡ 1)
unfolding program
send-read_example =
    send-read one "lead" "go" "worker-1" "task" "" "m" "t" "n" "worker-1" 20 21 22 refl (inl refl)
      (omega arith)
