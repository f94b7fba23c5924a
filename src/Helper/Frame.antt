-- ===== src/Helper/Frame.antt =====
-- crates/tun/src/frame.rs: frames on the helper's socket. What `sendmsg` and `recvmsg` answer is a
-- list, one answer for each call; a file descriptor is a number.
pub mod Chunks
pub mod Filled
pub mod Delivery
pub mod Progress
use easy_connection.Prelude.{
  ℕ, ◌+◌, Bool, Option, none, some, List, [], ◌∷◌, ◌++◌, ltb, leb, ◌==◌, is_empty, if◌then◌else◌,
  length, take, drop, Bytes, u32_to_be, u32_from_be,
}

abbrev pub max_frame : ℕ
max_frame = 1048576

-- The bytes that one call passes, and the descriptor that goes with them.
pub record Chunk : Type 0 where
  pub bytes : Bytes
  pub fd : Option ℕ

pub data IpcError : Type 0 where
  frame_too_large : IpcError
  write_zero : IpcError
  unexpected_eof : IpcError
  failed : IpcError

-- `wrote n` is `Ok(n)`; `again` is an error that `retryable` accepts.
pub data SendAnswer : Type 0 where
  wrote : ℕ → SendAnswer
  send_again : SendAnswer
  send_failed : SendAnswer

-- Where the answers run out, the call still waits for the socket.
pub data Sending : Type 0 where
  waiting : Sending
  sent : List Chunk → Sending
  send_error : IpcError → Sending

-- A chunk that the kernel took in front of what it takes later.
abbrev pub before : Chunk → Sending → Sending
before c waiting = waiting
before c (sent cs) = sent (c ∷ cs)
before c (send_error e) = send_error e

-- The loop of `send_frame`, with what is left of the frame and the descriptor that is left to pass.
unfoldable pub send_loop : List SendAnswer → Bytes → Option ℕ → Sending
send_loop answers [] fd = sent []
send_loop [] (b ∷ bs) fd = waiting
send_loop (send_again ∷ answers) (b ∷ bs) fd = send_loop answers (b ∷ bs) fd
send_loop (send_failed ∷ answers) (b ∷ bs) fd = send_error failed
send_loop (wrote n ∷ answers) (b ∷ bs) fd =
    let later = send_loop answers (drop n (b ∷ bs)) none in
    if n == 0
    then send_error write_zero
    else before (record { bytes = take n (b ∷ bs); fd = fd }) later

abbrev pub framed : Bytes → Bytes
framed payload = u32_to_be (length payload) ++ payload

unfoldable pub send_frame : List SendAnswer → Bytes → Option ℕ → Sending
unfolding send_loop
send_frame answers payload fd =
    if ltb max_frame (length payload)
    then send_error frame_too_large
    else send_loop answers (framed payload) fd

pub data RecvAnswer : Type 0 where
  got : Chunk → RecvAnswer
  recv_again : RecvAnswer
  recv_failed : RecvAnswer

pub record RecvFrame : Type 0 where
  pub payload : Bytes
  pub fd : Option ℕ

-- A loop that reads chunks, and what it ends with: the buffer, the descriptor and the answers that
-- are left.
pub data Filling : Type 0 where
  starved : Filling
  filled : Bytes → Option ℕ → List RecvAnswer → Filling
  fill_error : IpcError → Filling

-- The first descriptor is kept.
abbrev pub keep_fd : Option ℕ → Option ℕ → Option ℕ
keep_fd none new = new
keep_fd (some fd) new = some fd

-- `while buf.len() < need`, with the retries of `recv_chunk`.
unfoldable pub fill : ℕ → List RecvAnswer → Bytes → Option ℕ → Filling
fill need [] buf fd = if ltb (length buf) need then starved else filled buf fd []
fill need (recv_again ∷ answers) buf fd =
    let next = fill need answers buf fd in
    if ltb (length buf) need then next else filled buf fd (recv_again ∷ answers)
fill need (recv_failed ∷ answers) buf fd =
    if ltb (length buf) need then fill_error failed else filled buf fd (recv_failed ∷ answers)
fill need (got chunk ∷ answers) buf fd =
    let next = fill need answers (buf ++ chunk.bytes) (keep_fd fd chunk.fd) in
    if ltb (length buf) need
    then (if is_empty chunk.bytes then fill_error unexpected_eof else next)
    else filled buf fd (got chunk ∷ answers)

pub data Receiving : Type 0 where
  pending : Receiving
  received : RecvFrame → List RecvAnswer → Receiving
  recv_error : IpcError → Receiving

-- Once the buffer has the whole frame.
cut_frame : ℕ → Filling → Receiving
cut_frame len starved = pending
cut_frame len (fill_error e) = recv_error e
cut_frame len (filled buf fd answers) =
    received (record { payload = take len (drop 4 buf); fd = fd }) answers

-- Once the buffer has the length.
read_body : Filling → Receiving
unfolding cut_frame
read_body starved = pending
read_body (fill_error e) = recv_error e
read_body (filled buf fd answers) =
    let len = u32_from_be (take 4 buf) in
    if ltb max_frame len
    then recv_error frame_too_large
    else cut_frame len (fill (4 + len) answers buf fd)

unfoldable pub recv_frame : List RecvAnswer → Receiving
unfolding read_body
recv_frame answers = read_body (fill 4 answers [] none)
