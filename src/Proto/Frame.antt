-- ===== src/Proto/Frame.antt =====
-- filewall-proto/src/lib.rs, `write_msg_capped` and `read_msg_capped`: a message is a length in
-- four bytes, the highest first, and that many bytes of JSON. A byte is a number below 256.
use filewall.Prelude.{
  ℕ, ◌+◌, ◌*◌, ◌/◌, ◌%◌, ◌≡◌, Option, List, [], ◌∷◌, ◌++◌, Result, ok, err, ◌>>=◌, length, take,
  drop, ltb, if◌then◌else◌,
}

abbrev pub Bytes : Type 0
Bytes = List ℕ

-- `std::io::ErrorKind`, as far as the program tells kinds apart.
pub data ErrorKind : Type 0 where
  not_found would_block timed_out interrupted invalid_input invalid_data unexpected_eof : ErrorKind
  broken_pipe connection_reset connection_aborted not_connected other : ErrorKind

-- serde's JSON form of a type of messages. `from_slice` reads back what `to_vec` writes.
pub record Json (T : Type 0) : Type 0 where
  pub to_vec : T → Result ErrorKind Bytes
  pub from_slice : Bytes → Option T

-- serde_json's documented round trip.
abbrev pub ReadsBack : {T : Type 0} → Json T → Type 0
ReadsBack {T} json = (v : T) (b : Bytes) → json.to_vec v ≡ ok b → json.from_slice b ≡ Option.some v

abbrev pub max_msg_len : ℕ
max_msg_len = 64 * 1024

abbrev pub max_control_msg_len : ℕ
max_control_msg_len = 8 * 1024 * 1024

abbrev pub u32_space : ℕ
u32_space = 4294967296

-- `u32::to_be_bytes`.
unfoldable pub to_be_bytes : ℕ → Bytes
to_be_bytes n = (n / 16777216 % 256) ∷ (n / 65536 % 256) ∷ (n / 256 % 256) ∷ (n % 256) ∷ []

-- `u32::from_be_bytes`.
unfoldable pub from_be_bytes : Bytes → ℕ
from_be_bytes (a ∷ b ∷ c ∷ d ∷ []) = a * 16777216 + b * 65536 + c * 256 + d
from_be_bytes _ = 0

-- `Read::read_exact`: the bytes and what is left of the stream, or the stream has ended.
unfoldable pub read_exact : ℕ → Bytes → Result ErrorKind (Bytes × Bytes)
read_exact n stream =
    if ltb (length stream) n then err unexpected_eof else ok (take n stream, drop n stream)

module _ {T : Type 0} (json : Json T) where
  -- The bytes that `write_msg_capped` sends.
  unfoldable pub write_msg_capped : ℕ → T → Result ErrorKind Bytes
  unfolding to_be_bytes
  write_msg_capped max msg = do
    body ← json.to_vec msg
    if ltb 4294967295 (length body)
        then err invalid_data
        else if ltb max (length body)
        then err invalid_data
        else ok (to_be_bytes (length body) ++ body)

  unfoldable pub parsed : Option T → Bytes → Result ErrorKind (T × Bytes)
  parsed Option.none rest = err invalid_data
  parsed (Option.some v) rest = ok (v, rest)

  -- The message and what is left of the stream.
  unfoldable pub read_msg_capped : ℕ → Bytes → Result ErrorKind (T × Bytes)
  unfolding parsed
  read_msg_capped max stream = do
    (len_buf, stream1) ← read_exact 4 stream
    let len = from_be_bytes len_buf
    if ltb max len
        then err invalid_data
        else do (body, stream2) ← read_exact len stream1; parsed (json.from_slice body) stream2

  unfoldable pub write_msg : T → Result ErrorKind Bytes
  unfolding write_msg_capped
  write_msg msg = write_msg_capped max_msg_len msg

  unfoldable pub read_msg : Bytes → Result ErrorKind (T × Bytes)
  unfolding read_msg_capped
  read_msg stream = read_msg_capped max_msg_len stream
