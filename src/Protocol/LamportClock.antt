-- ===== src/Protocol/LamportClock.antt =====
-- protocol/lamportClock.js. Timestamps are whole numbers below 2^53, where adding one is exact.
pub mod Causality
mod Tests
use p2p_app.Prelude.{ℕ, ◌+◌, max}

pub record LamportClock : Type 0 where
  pub value : ℕ

unfoldable pub init : LamportClock
init = record { value = 0 }

-- A method returns the clock it leaves and the time that it reports.
unfoldable pub tick : LamportClock → LamportClock × ℕ
tick c = (record { value = c.value + 1 }, c.value + 1)

unfoldable pub update : LamportClock → ℕ → LamportClock × ℕ
update c received_time =
    (record { value = max c.value received_time + 1 }, max c.value received_time + 1)
