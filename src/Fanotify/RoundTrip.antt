-- ===== src/Fanotify/RoundTrip.antt =====
-- Events that the kernel has laid out in the buffer are read back as they are.
use filewall.Fanotify.{
  Memory, RawEvent, u16_at, u32_at, u64_at, not_negative, find_pidfd, ReadFault, push_event,
  event_at, parse_events, read_ready,
}
use filewall.Prelude.{
  ℕ, zero, suc, ◌+◌, ◌*◌, ◌≤◌, ◌<◌, true, false, Option, none, some, List, [], ◌∷◌, length, Result,
  ok, ltb, leb, ◌==◌, if◌then◌else◌, ◌≡◌, refl, arith, ap, ◌∙◌,
}

-- The bits of a pidfd, or of FAN_NOPIDFD.
abbrev pub PidfdBits : Option ℕ → ℕ → Type 0
PidfdBits none raw = raw ≡ 4294967295
PidfdBits (some fd) raw = (raw ≡ fd) × (fd < 2147483648)

-- The kernel's layout at an offset: 24 bytes of metadata, then 8 bytes of pidfd record.
pub record LaidOut (m : Memory) (off : ℕ) (ev : RawEvent) : Type 0 where
  pub event_len : u32_at m off ≡ 32
  pub metadata_len : u16_at m (off + 6) ≡ 24
  pub mask : u64_at m (off + 8) ≡ ev.mask
  pub fd : u32_at m (off + 16) ≡ ev.file_fd
  pub fd_valid : ev.file_fd < 2147483648
  pub pid : u32_at m (off + 20) ≡ ev.pid
  pub info_type : m (off + 24) ≡ 4
  pub info_len : u16_at m (off + 24 + 2) ≡ 8
  pub pidfd : PidfdBits ev.pidfd (u32_at m (off + 24 + 4))

-- Events one behind the other.
pub data AllLaidOut (m : Memory) : ℕ → List RawEvent → Type 0 where
  done : {off : ℕ} → AllLaidOut m off []
  next :
      {off : ℕ} {ev : RawEvent} {evs : List RawEvent}
      → LaidOut m off ev
      → AllLaidOut m (off + 32) evs
      → AllLaidOut m off (ev ∷ evs)

abbrev pub push_all :
    List RawEvent → Result ReadFault (List RawEvent) → Result ReadFault (List RawEvent)
push_all [] r = r
push_all (ev ∷ evs) r = push_event ev (push_all evs r)

le→leb : (a b : ℕ) → a ≤ b → leb a b ≡ true
le→leb a b h = ground arith

leb-false : (a b : ℕ) → b < a → leb a b ≡ false
leb-false a b h = ground arith

le→ltb-false : (a b : ℕ) → a ≤ b → ltb b a ≡ false
le→ltb-false a b h = ground arith

not_minus_one : (fd : ℕ) → fd < 2147483648 → (fd == 4294967295) ≡ false
not_minus_one fd h = ground arith

split_fuel : (k : ℕ) → k * 32 ≡ k + k * 31
split_fuel k = omega arith

push_all-ok : (evs : List RawEvent) → push_all evs (ok []) ≡ ok evs
push_all-ok [] = refl
push_all-ok (ev ∷ evs) = rw (push_all-ok evs) refl

find_pidfd_stops :
    (fuel : ℕ) (m : Memory) (end ioff raw : ℕ)
    → end < ioff + 4
    → find_pidfd fuel m end ioff raw ≡ raw
unfolding find_pidfd
find_pidfd_stops zero m end ioff raw h = refl
find_pidfd_stops (suc fuel) m end ioff raw h = rw (leb-false (ioff + 4) end h) refl

find_pidfd_steps :
    (fuel : ℕ) (m : Memory) (end ioff raw : ℕ)
    → m ioff ≡ 4
    → u16_at m (ioff + 2) ≡ 8
    → ioff + 4 ≤ end
    → find_pidfd (suc fuel) m end ioff raw ≡ find_pidfd fuel m end (ioff + 8) (u32_at m (ioff + 4))
unfolding find_pidfd
find_pidfd_steps fuel m end ioff raw h k l = rw (le→leb (ioff + 4) end l, h, k) refl

find_pidfd_found :
    (m : Memory) (off : ℕ) (ev : RawEvent)
    → LaidOut m off ev
    → find_pidfd 32 m (off + 32) (off + 24) 4294967295 ≡ u32_at m (off + 24 + 4)
find_pidfd_found m off ev h =
    find_pidfd_steps 31 m (off + 32) (off + 24) 4294967295 h.info_type h.info_len (omega arith)
    ∙ find_pidfd_stops 31 m (off + 32) (off + 24 + 8) _ (omega arith)

owned :
    (o : Option ℕ) (raw : ℕ) → PidfdBits o raw → (if not_negative raw then some raw else none) ≡ o
owned none raw h = ground arith
owned (some fd) raw h = ground arith

event_at_lem : (m : Memory) (off : ℕ) (ev : RawEvent) → LaidOut m off ev → event_at m off 32 ≡ ev
unfolding event_at
event_at_lem m off ev h =
    rw (h.metadata_len, find_pidfd_found m off ev h, owned ev.pidfd _ h.pidfd, h.mask, h.pid, h.fd)
      refl

parse_step :
    (m : Memory) (n fuel off : ℕ) (ev : RawEvent)
    → LaidOut m off ev
    → off + 32 ≤ n
    → parse_events (suc fuel) m n off ≡ push_event ev (parse_events fuel m n (off + 32))
unfolding parse_events
parse_step m n fuel off ev l h =
    rw
      (
        l.event_len,
        le→leb (off + 24) n (omega arith),
        le→ltb-false (off + 32) n h,
        not_minus_one (u32_at m (off + 16)) (rw l.fd l.fd_valid),
        event_at_lem m off ev l,
      )
      refl

pub parse_prefix :
    (m : Memory) (n k fuel off off' : ℕ) (evs : List RawEvent)
    → AllLaidOut m off evs
    → k ≡ length evs + fuel
    → off' ≡ off + length evs * 32
    → off' ≤ n
    → parse_events k m n off ≡ push_all evs (parse_events fuel m n off')
parse_prefix m n k fuel off off' [] done e f h =
    let same_fuel : k ≡ fuel = omega arith in
    let same_off : off' ≡ off = omega arith in rw (same_fuel, same_off) refl
parse_prefix m n zero fuel off off' (ev ∷ evs) (next l ls) e f h = absurd (omega arith)
parse_prefix m n (suc k) fuel off off' (ev ∷ evs) (next l ls) e f h =
    parse_step m n k off ev l (omega arith)
    ∙ ap (λ r. push_event ev r)
        (parse_prefix m n k fuel (off + 32) off' evs ls (omega arith) (omega arith) h)

parse_end : (m : Memory) (n fuel : ℕ) → parse_events fuel m n n ≡ ok []
unfolding parse_events
parse_end m n zero = refl
parse_end m n (suc fuel) = rw (leb-false (n + 24) n (omega arith)) refl

-- Events that the kernel has laid out one behind the other, with or without a pidfd, are returned
-- in their order with the mask, the process, the descriptor and the pidfd that they have.
pub read_ready_returns_laid_out :
    (m : Memory) (evs : List RawEvent)
    → AllLaidOut m 0 evs
    → read_ready m (ok (length evs * 32)) ≡ ok evs
unfolding read_ready
read_ready_returns_laid_out m evs h =
    parse_prefix m (length evs * 32) (length evs * 32) (length evs * 31) 0 (length evs * 32) evs h
      (split_fuel (length evs)) (omega arith) (omega arith)
    ∙ ap (λ r. push_all evs r) (parse_end m (length evs * 32) (length evs * 31))
    ∙ push_all-ok evs
