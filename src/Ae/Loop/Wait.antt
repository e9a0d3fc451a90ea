-- ===== src/Ae/Loop/Wait.antt =====
-- The timeout that aeProcessEvents passes to the poll.
use bo_atom.Prelude.{◌+◌, ◌-◌, ◌*◌, ◌<◌, ◌≡◌, arith}
use bo_atom.Ae.Timers.{Stamp}
use bo_atom.Ae.Timers.Search.{total}
use bo_atom.Ae.Loop.{wait_for}

-- The timeout is a normal timeval of exactly the milliseconds from the present time to the event's,
-- and of none when the event's time has come.
pub wait_for-total :
    (now when : Stamp)
    → ((wait_for now when).tv_sec * 1000000 + (wait_for now when).tv_usec
        ≡ (total when - total now) * 1000)
      × ((wait_for now when).tv_usec < 1000000)
unfolding wait_for
wait_for-total now when = ground arith
