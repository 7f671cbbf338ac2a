-- ===== src/Fanotify.antt =====
-- filewalld/src/fanotify.rs: the events that the kernel writes into a buffer, and their answers.
-- Memory is a function from offsets to bytes, little endian; what lies behind the `n` bytes that
-- were read is whatever the function says.
pub mod Calls
pub mod RoundTrip
pub mod Overflow
pub mod Fuel
use filewall.Prelude.{
  ℕ, zero, suc, ◌+◌, ◌*◌, Bool, ◌||◌, Option, none, some, List, [], ◌∷◌, Result, ok, err, ltb, leb,
  ◌==◌, if◌then◌else◌,
}
use filewall.Proto.Frame.{ErrorKind}

abbrev pub Memory : Type 0
Memory = ℕ → ℕ

-- An event as the daemon keeps it: descriptors are numbers from 0 on.
pub record RawEvent : Type 0 where
  pub mask : ℕ
  pub pid : ℕ
  pub file_fd : ℕ
  pub pidfd : Option ℕ

abbrev pub u16_at : Memory → ℕ → ℕ
u16_at m i = m i + m (i + 1) * 256

abbrev pub u32_at : Memory → ℕ → ℕ
u32_at m i = m i + m (i + 1) * 256 + m (i + 2) * 65536 + m (i + 3) * 16777216

abbrev pub u64_at : Memory → ℕ → ℕ
u64_at m i = u32_at m i + u32_at m (i + 4) * 4294967296

-- `EventMetadata` is 24 bytes: event_len, vers, reserved, metadata_len, mask, fd, pid.
abbrev pub metadata_size : ℕ
metadata_size = 24

-- `InfoHeader` is 4 bytes: info_type, pad, len.
abbrev pub header_size : ℕ
header_size = 4

abbrev fan_nopidfd : ℕ
fan_nopidfd = 4294967295

abbrev fan_event_info_type_pidfd : ℕ
fan_event_info_type_pidfd = 4

-- Is the `i32` with these bits from 0 on?
abbrev pub not_negative : ℕ → Bool
not_negative n = ltb n 2147483648

-- The loop over the info records from `ioff`, at most so many times: the raw pidfd.
unfoldable pub find_pidfd : ℕ → Memory → ℕ → ℕ → ℕ → ℕ
find_pidfd zero m end ioff pidfd_raw = pidfd_raw
find_pidfd (suc fuel) m end ioff pidfd_raw =
    let found =
      if m ioff == fan_event_info_type_pidfd then u32_at m (ioff + header_size) else pidfd_raw in
    let len = u16_at m (ioff + 2) in
    let rest = find_pidfd fuel m end (ioff + len) found in
    if leb (ioff + header_size) end then (if len == 0 then found else rest) else pidfd_raw

abbrev owned_pidfd : ℕ → Option ℕ
owned_pidfd raw = if not_negative raw then some raw else none

-- Why a read gives no events: the call fails, or `OwnedFd::from_raw_fd(-1)` panics.
pub data ReadFault : Type 0 where
  os_error : ErrorKind → ReadFault
  fd_is_minus_one : ReadFault

abbrev push_event : RawEvent → Result ReadFault (List RawEvent) → Result ReadFault (List RawEvent)
push_event ev (ok events) = ok (ev ∷ events)
push_event ev (err e) = err e

-- One event at `off`, of the length `event_len`.
event_at : Memory → ℕ → ℕ → RawEvent
unfolding find_pidfd
event_at m off event_len = record {
  mask = u64_at m (off + 8);
  pid = u32_at m (off + 20);
  file_fd = u32_at m (off + 16);
  pidfd =
      owned_pidfd (find_pidfd event_len m (off + event_len) (off + u16_at m (off + 6)) fan_nopidfd);
}

-- The outer loop, from the offset `off`, at most so many times.
unfoldable pub parse_events : ℕ → Memory → ℕ → ℕ → Result ReadFault (List RawEvent)
unfolding event_at
parse_events zero m n off = ok []
parse_events (suc fuel) m n off =
    let event_len = u32_at m off in
    let rest = parse_events fuel m n (off + event_len) in
    if leb (off + metadata_size) n
    then (if ltb event_len metadata_size || ltb n (off + event_len)
        then ok []
        else if u32_at m (off + 16) == 4294967295
        then err fd_is_minus_one
        else push_event (event_at m off event_len) rest)
    else ok []

-- `read_ready`, from what `read` answers: the bytes are in the memory, and `n` of them are new.
unfoldable pub read_ready : Memory → Result ErrorKind ℕ → Result ReadFault (List RawEvent)
unfolding parse_events
read_ready m (err e) = err (os_error e)
read_ready m (ok n) = parse_events n m n 0

-- `respond` writes the descriptor and FAN_ALLOW or FAN_DENY.
unfoldable pub response_code : Bool → ℕ
response_code allow = if allow then 1 else 2
