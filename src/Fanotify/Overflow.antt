-- ===== src/Fanotify/Overflow.antt =====
-- The event that the kernel sends when its queue overflows has the descriptor -1 (FAN_NOFD).
use filewall.Fanotify.{
  Memory, RawEvent, u32_at, ReadFault, fd_is_minus_one, parse_events, read_ready,
}
use filewall.Fanotify.RoundTrip.{AllLaidOut, push_all, parse_prefix}
use filewall.Prelude.{
  ℕ, suc, ◌+◌, ◌*◌, ◌-◌, ◌≤◌, List, [], ◌∷◌, length, ok, err, ◌≡◌, refl, arith, ap, ◌∙◌,
}

push_all-err : (evs : List RawEvent) (e : ReadFault) → push_all evs (err e) ≡ err e
push_all-err [] e = refl
push_all-err (ev ∷ evs) e = rw (push_all-err evs e) refl

parse_minus_one :
    (m : Memory) (n fuel off : ℕ)
    → 24 ≤ u32_at m off
    → off + u32_at m off ≤ n
    → u32_at m (off + 16) ≡ 4294967295
    → parse_events (suc fuel) m n off ≡ err fd_is_minus_one
unfolding parse_events
parse_minus_one m n fuel off h k e = ground (arith, h, k, e)

-- An event with the descriptor -1, behind events that are well formed, ends the read in a panic,
-- and the events before it are not returned.
pub overflow_event_panics :
    (m : Memory) (evs : List RawEvent) (n : ℕ)
    → AllLaidOut m 0 evs
    → 24 ≤ u32_at m (length evs * 32)
    → length evs * 32 + u32_at m (length evs * 32) ≤ n
    → u32_at m (length evs * 32 + 16) ≡ 4294967295
    → read_ready m (ok n) ≡ err fd_is_minus_one
unfolding read_ready
overflow_event_panics m evs n h k l e =
    parse_prefix m n n (suc (n - length evs - 1)) 0 (length evs * 32) evs h (omega arith)
      (omega arith) (omega arith)
    ∙ ap (λ r. push_all evs r) (parse_minus_one m n (n - length evs - 1) (length evs * 32) k l e)
    ∙ push_all-err evs fd_is_minus_one
