-- ===== src/Fanotify/Fuel.antt =====
-- The loops of `read_ready` in filewalld/src/fanotify.rs come to an end within their fuel.
use filewall.Fanotify.{Memory, u16_at, u32_at, find_pidfd, parse_events}
use filewall.Prelude.{ℕ, zero, suc, ◌+◌, ◌≤◌, ◌==◌, if◌then◌else◌, ◌≡◌, refl, arith}

-- Any fuel of at least the bytes that are left gives the same pidfd.
pub find_pidfd_enough :
    (a b : ℕ) (m : Memory) (end ioff raw : ℕ)
    → end ≤ ioff + a
    → end ≤ ioff + b
    → find_pidfd a m end ioff raw ≡ find_pidfd b m end ioff raw
unfolding find_pidfd
find_pidfd_enough zero zero m end ioff raw h k = refl
find_pidfd_enough zero (suc b) m end ioff raw h k = ground arith
find_pidfd_enough (suc a) zero m end ioff raw h k = ground arith
find_pidfd_enough (suc a) (suc b) m end ioff raw h k = ground (
  arith,
  find_pidfd_enough a b m end (ioff + u16_at m (ioff + 2))
      (if m ioff == 4 then u32_at m (ioff + 4) else raw),
)

-- Any fuel of at least the bytes that are left gives the same events.
pub parse_events_enough :
    (a b : ℕ) (m : Memory) (n off : ℕ)
    → n ≤ off + a
    → n ≤ off + b
    → parse_events a m n off ≡ parse_events b m n off
unfolding parse_events
parse_events_enough zero zero m n off h k = refl
parse_events_enough zero (suc b) m n off h k = ground arith
parse_events_enough (suc a) zero m n off h k = ground arith
parse_events_enough (suc a) (suc b) m n off h k =
    ground (arith, parse_events_enough a b m n (off + u32_at m off))
