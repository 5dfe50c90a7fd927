-- ===== src/Broker/Server/Deadline.antt =====
-- src/broker/mod.rs: the time that a shutdown takes.
use awtrix_controller.Prelude.{ℕ, ◌+◌, ◌-◌, ◌≤◌, Option, none, some, arith}
use awtrix_controller.Broker.Server.{Waits, timeout, remaining, shutdown}

timeout-after :
    (now budget : ℕ) (work : Option ℕ)
    → (now ≤ (timeout now budget work).1) × ((timeout now budget work).1 ≤ now + budget)
timeout-after now budget none = (omega arith, omega arith)
timeout-after now budget (some d) = (ground arith, ground arith)

-- A wait for what remains ends by the deadline, or later by what is added to it.
wait-by_deadline :
    (now deadline more : ℕ) (work : Option ℕ)
    → now ≤ deadline
    → (timeout now (remaining deadline now + more) work).1 ≤ deadline + more
wait-by_deadline now deadline more work h =
    let (_, late) = timeout-after now (remaining deadline now + more) work in omega arith

waited :
    (now deadline : ℕ) (work : Option ℕ)
    → now ≤ deadline
    → (now ≤ (timeout now (remaining deadline now) work).1)
      × ((timeout now (remaining deadline now) work).1 ≤ deadline)
waited now deadline work h =
    let (early, late) = timeout-after now (remaining deadline now) work in (early, omega arith)

-- A shutdown that is called by its deadline returns at most the grace of 100 ms after it, and gives the
-- runtime no more time than is left, whatever the sessions and the broker thread do.
pub shutdown-by_deadline :
    (now deadline : ℕ) (waits : Waits)
    → now ≤ deadline
    → ((shutdown now deadline waits).returned_at ≤ deadline + 100)
      × (now + (shutdown now deadline waits).request ≤ deadline)
unfolding shutdown
shutdown-by_deadline now deadline waits h =
    let t1 = (timeout now (remaining deadline now) waits.kicked).1 in
    let t2 = (timeout t1 (remaining deadline t1) waits.drained).1 in
    let (a1, b1) = waited now deadline waits.kicked h in
    let (a2, b2) = waited t1 deadline waits.drained b1 in
    let left : now + (deadline - t2) ≤ deadline = omega arith in
    (wait-by_deadline t2 deadline 100 waits.finished b2, left)
