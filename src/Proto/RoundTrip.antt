-- ===== src/Proto/RoundTrip.antt =====
-- What is written as a frame is read back, alone or among others, and a frame that is cut short is
-- reported as such.
use mathlib.Core.List.{append_assoc}
use filewall.Prelude.{
  >>=-eq-ok, ap, ℕ, zero, suc, ◌-◌, ◌≤◌, ◌<◌, ◌≡◌, refl, List, [], ◌∷◌, ◌++◌, Result, ok, err,
  ◌>>=◌, length, take, ltb, if◌then◌else◌, arith, Bool-cases, inl, inr, length-append, take-append,
  take-append_ge, drop-append, length-take, ltb→lt, ltb→le, le→ltb, lt→ltb,
}
use filewall.Proto.Frame.{
  Bytes, ErrorKind, invalid_data, unexpected_eof, Json, ReadsBack, to_be_bytes, from_be_bytes,
  read_exact, write_msg_capped, read_msg_capped, parsed, u32_space,
}

from_be_bytes-to_be_bytes : (n : ℕ) → n < u32_space → from_be_bytes (to_be_bytes n) ≡ n
unfolding from_be_bytes to_be_bytes
from_be_bytes-to_be_bytes n h = omega arith

length-to_be_bytes : (n : ℕ) → length (to_be_bytes n) ≡ 4
unfolding to_be_bytes
length-to_be_bytes n = refl

read_exact-append : (n : ℕ) (xs ys : Bytes) → length xs ≡ n → read_exact n (xs ++ ys) ≡ ok (xs, ys)
unfolding read_exact
read_exact-append n xs ys h = rw (← h) (
    rw (le→ltb (length (xs ++ ys)) (length xs) (omega (arith, length-append xs ys)))
      (rw (take-append xs ys, drop-append xs ys)))

read_exact_short :
    (n : ℕ) (stream : Bytes) → length stream < n → read_exact n stream ≡ err unexpected_eof
unfolding read_exact
read_exact_short n stream h = rw (lt→ltb (length stream) n h)

-- The body of the frame that `write_msg_capped` sends.
pub record IsFrame {T : Type 0} (json : Json T) (max : ℕ) (msg : T) (frame : Bytes) : Type 0 where
  pub body : Bytes
  pub serialized : json.to_vec msg ≡ ok body
  pub fits : length body ≤ max
  pub in_u32 : length body < u32_space
  pub layout : frame ≡ to_be_bytes (length body) ++ body

module _ {T : Type 0} (json : Json T) (max : ℕ) where
  frame_of :
      (body frame : Bytes)
      → (if ltb 4294967295 (length body)
          then err invalid_data
          else if ltb max (length body)
          then err invalid_data
          else ok (to_be_bytes (length body) ++ body))
        ≡ ok frame
      → (length body ≤ max)
        × (length body < u32_space)
        × (frame ≡ to_be_bytes (length body) ++ body)
  frame_of body frame h = (ground arith, ground arith, ground arith)

  write-IsFrame :
      (msg : T) (frame : Bytes)
      → write_msg_capped json max msg ≡ ok frame
      → IsFrame json max msg frame
  unfolding write_msg_capped
  write-IsFrame msg frame h =
      let (body, s, k) = >>=-eq-ok (json.to_vec msg) _ h in
      let (a, b, c) = frame_of body frame k in
      record { body = body; serialized = s; fits = a; in_u32 = b; layout = c }

  -- A frame with the given body is read whatever the body is.
  read_frame :
      (body rest : Bytes)
      → length body ≤ max
      → length body < u32_space
      → read_msg_capped json max (to_be_bytes (length body) ++ (body ++ rest))
        ≡ parsed json (json.from_slice body) rest
  unfolding read_msg_capped
  read_frame body rest h k = rw (
    read_exact-append 4 (to_be_bytes (length body)) (body ++ rest)
        (length-to_be_bytes (length body)),
    from_be_bytes-to_be_bytes (length body) k,
    le→ltb max (length body) h,
    read_exact-append (length body) body rest refl,
  )

  -- A message that was written is read back, with whatever follows it in the stream left for the
  -- next read.
  pub read_msg_capped-write_msg_capped :
      (msg : T) (frame rest : Bytes)
      → ReadsBack json
      → write_msg_capped json max msg ≡ ok frame
      → read_msg_capped json max (frame ++ rest) ≡ ok (msg, rest)
  unfolding read_msg_capped
  read_msg_capped-write_msg_capped msg frame rest back h =
      let f = write-IsFrame msg frame h in
      rw (
        f.layout,
        append_assoc (to_be_bytes (length f.body)) f.body rest,
        read_frame f.body rest f.fits f.in_u32,
        back msg f.body f.serialized,
      )

  -- Every frame that is cut short, in its length or in its body, is read as the end of the stream.
  pub read_msg_capped_cut :
      (msg : T) (frame : Bytes) (n : ℕ)
      → write_msg_capped json max msg ≡ ok frame
      → n < length frame
      → read_msg_capped json max (take n frame) ≡ err unexpected_eof
  unfolding read_msg_capped
  read_msg_capped_cut msg frame n h k =
      let f = write-IsFrame msg frame h in
      let head = to_be_bytes (length f.body) in
      let four = length-to_be_bytes (length f.body) in
      elim (Bool-cases (ltb n 4)) [
        | inl short ↦ rw (
            read_exact_short 4 (take n frame)
              (omega (arith, length-take n frame, ltb→lt n 4 short)))
        | inr long ↦
            let rest = take (n - length head) f.body in
            rw (
              f.layout,
              take-append_ge n head f.body (omega (arith, four, ltb→le n 4 long)),
              read_exact-append 4 head rest four,
              from_be_bytes-to_be_bytes (length f.body) f.in_u32,
              le→ltb max (length f.body) f.fits,
              read_exact_short (length f.body) rest (
                  omega (
                    arith,
                    length-take (n - length head) f.body,
                    ap length f.layout,
                    length-append head f.body,
                    four,
                    ltb→le n 4 long,
                  )),
            )
      ]

  -- A length above the limit is refused whatever follows it.
  pub read_msg_capped_too_large :
      (len_buf rest : Bytes)
      → length len_buf ≡ 4
      → max < from_be_bytes len_buf
      → read_msg_capped json max (len_buf ++ rest) ≡ err invalid_data
  unfolding read_msg_capped
  read_msg_capped_too_large len_buf rest h k =
      rw (read_exact-append 4 len_buf rest h, lt→ltb max (from_be_bytes len_buf) k)

  -- The frames of several messages, one after another.
  abbrev pub send_all : List T → Result ErrorKind Bytes
  send_all [] = ok []
  send_all (m ∷ ms) = do frame ← write_msg_capped json max m; rest ← send_all ms; ok (frame ++ rest)

  -- As many messages as there are to be read.
  abbrev pub receive : ℕ → Bytes → Result ErrorKind (List T × Bytes)
  receive zero stream = ok ([], stream)
  receive (suc n) stream = do
    (m, stream1) ← read_msg_capped json max stream
    (ms, stream2) ← receive n stream1
    ok (m ∷ ms, stream2)

  -- Messages that fit into their frames and are sent one after another are received as they were,
  -- in order, and the bytes behind them are left unread, given that the JSON form reads back.
  pub receive-send_all :
      (ms : List T) (sent rest : Bytes)
      → ReadsBack json
      → send_all ms ≡ ok sent
      → receive (length ms) (sent ++ rest) ≡ ok (ms, rest)
  receive-send_all [] sent rest back h = let e : sent ≡ [] = cc in rw e refl
  receive-send_all (m ∷ ms) sent rest back h =
      let (frame, w, h1) = >>=-eq-ok (write_msg_capped json max m) _ h in
      let (later, w2, h2) = >>=-eq-ok (send_all ms) _ h1 in
      let e : sent ≡ frame ++ later = cc h2 in
      rw (
        e,
        append_assoc frame later rest,
        read_msg_capped-write_msg_capped m frame (later ++ rest) back w,
        receive-send_all ms later rest back w2,
      )
