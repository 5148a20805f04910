-- ===== src/PacketCodec.antt =====
-- src/network/packet_codec.cpp and include/cpp_chat/network/packet_codec.h.
-- What the kernel answers to `recv` and `send` is an argument: a finite run of answers, the last
-- one of a kind that ends the loop. Bytes are numbers below 256 and `std::uint32_t` wraps.
pub mod Extract
pub mod Frames
pub mod Stream
pub mod RoundTrip
pub mod Sending
use cpp_chat.Base.{
  ℕ, zero, suc, ◌+◌, ◌-◌, ◌*◌, ◌/◌, ◌%◌, ◌^◌, Bool, true, false, ◌||◌, List, [], ◌∷◌, ◌++◌, Option,
  none, some, ltb, leb, ◌==◌, if◌then◌else◌, Bytes, length, take, drop, is_empty,
}

abbrev pub packet_header_size : ℕ
packet_header_size = 4

abbrev pub max_packet_payload_size : ℕ
max_packet_payload_size = 1024 * 1024

-- The four bytes that `htonl` and `memcpy` put in front of a payload.
unfoldable pub net_length : ℕ → Bytes
net_length n = n / 2 ^ 24 % 256 ∷ n / 2 ^ 16 % 256 ∷ n / 2 ^ 8 % 256 ∷ n % 256 ∷ []

-- `memcpy` of the first four bytes, and `ntohl`.
unfoldable pub payload_length : Bytes → ℕ
payload_length (a ∷ b ∷ c ∷ d ∷ rest) = a * 2 ^ 24 + b * 2 ^ 16 + c * 2 ^ 8 + d
payload_length _ = 0

-- `none` is the exception "payload size is invalid".
unfoldable pub encode_packet : Bytes → Option Bytes
unfolding net_length
encode_packet payload =
    if is_empty payload || ltb max_packet_payload_size (length payload)
    then none
    else some (net_length (length payload % 2 ^ 32) ++ payload)

pub data RecvPacketStatus : Type 0 where
  ok would_block closed protocol_error io_error : RecvPacketStatus

pub record RecvPacketResult : Type 0 where
  pub status : RecvPacketStatus
  pub packets : List Bytes
  pub error_code : ℕ

-- The answers of `recv`: bytes (at least one), or EINTR, before an answer that ends the loop.
pub data Recvs : Type 0 where
  received : ℕ → Bytes → Recvs → Recvs
  interrupted : Recvs → Recvs
  end_of_stream : Recvs
  again : Recvs
  failed : ℕ → Recvs

-- One round of the second loop: it waits for more bytes, refuses the length, or cuts off a frame.
pub data Frame : Type 0 where
  incomplete malformed : Frame
  frame : Bytes → Bytes → Frame

unfoldable pub next_frame : ℕ → Bytes → Frame
unfolding payload_length
next_frame limit buffer =
    let size = payload_length buffer in
    let frame_size = packet_header_size + size in
    if ltb (length buffer) packet_header_size
    then incomplete
    else if size == 0 || ltb limit size
    then malformed
    else if ltb (length buffer) frame_size
    then incomplete
    else frame (take size (drop packet_header_size buffer)) (drop frame_size buffer)

-- The assignment behind the loop.
abbrev pub finish : Bytes → List Bytes → RecvPacketResult × Bytes
finish buffer packets = (
  record {
    status = if is_empty packets then would_block else ok;
    packets = packets;
    error_code = 0;
  },
  buffer,
)

-- The second loop, with what is left of the read buffer. A round that cuts off a frame shortens
-- the buffer by five bytes or more, so there are at most as many rounds as bytes.
unfoldable pub extract : ℕ → ℕ → Bytes → List Bytes → RecvPacketResult × Bytes
extract zero limit buffer packets = finish buffer packets
extract (suc rounds) limit buffer packets = elim (next_frame limit buffer) [
  | incomplete ↦ finish buffer packets
  | malformed ↦ (record { status = protocol_error; packets = packets; error_code = 0 }, buffer)
  | frame payload rest ↦ extract rounds limit rest (packets ++ payload ∷ [])
]

unfoldable pub extract_packets : ℕ → Bytes → List Bytes → RecvPacketResult × Bytes
unfolding extract next_frame
extract_packets limit buffer packets = extract (length buffer) limit buffer packets

unfoldable pub recv_packets_et : Recvs → Bytes → ℕ → RecvPacketResult × Bytes
unfolding extract_packets
recv_packets_et (received byte bytes recvs) read_buffer limit =
    recv_packets_et recvs (read_buffer ++ byte ∷ bytes) limit
recv_packets_et (interrupted recvs) read_buffer limit = recv_packets_et recvs read_buffer limit
recv_packets_et end_of_stream read_buffer limit =
    (record { status = closed; packets = []; error_code = 0 }, read_buffer)
recv_packets_et again read_buffer limit = extract_packets limit read_buffer []
recv_packets_et (failed errno) read_buffer limit =
    (record { status = io_error; packets = []; error_code = errno }, read_buffer)

pub data SendStatus : Type 0 where
  sent_all would_block io_error : SendStatus

pub record SendResult : Type 0 where
  pub status : SendStatus
  pub sent : ℕ
  pub error_code : ℕ

-- The answers of `send`: a count of bytes taken (one or more; the field is one less), or EINTR,
-- before an answer that ends the loop. An answer of 0 bytes counts as `failed`.
pub data Sends : Type 0 where
  accepted : ℕ → Sends → Sends
  interrupted : Sends → Sends
  again : Sends
  failed : ℕ → Sends

-- The loop of `send_all`; `sent` is what `result.sent` holds, and `wire` all that the kernel has
-- taken so far: of the bytes from `packet + sent` on, as many as it says.
unfoldable pub send_loop : Sends → Bytes → ℕ → Bytes → SendResult × Bytes
send_loop (accepted n sends) packet sent wire =
    let chunk = take (suc n) (take (length packet - sent) (drop sent packet)) in
    let later = send_loop sends packet (sent + suc n) (wire ++ chunk) in
    if ltb sent (length packet)
    then later
    else (record { status = sent_all; sent = sent; error_code = 0 }, wire)
send_loop (interrupted sends) packet sent wire =
    let later = send_loop sends packet sent wire in
    if ltb sent (length packet)
    then later
    else (record { status = sent_all; sent = sent; error_code = 0 }, wire)
send_loop again packet sent wire =
    if ltb sent (length packet)
    then (record { status = would_block; sent = sent; error_code = 0 }, wire)
    else (record { status = sent_all; sent = sent; error_code = 0 }, wire)
send_loop (failed errno) packet sent wire =
    if ltb sent (length packet)
    then (record { status = io_error; sent = sent; error_code = errno }, wire)
    else (record { status = sent_all; sent = sent; error_code = 0 }, wire)

unfoldable pub send_all : Sends → Bytes → SendResult × Bytes
unfolding send_loop
send_all sends packet = send_loop sends packet 0 []
