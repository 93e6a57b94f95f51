-- ===== src/Packet.antt =====
-- src/packet/queued_packet.hh and src/packet/packet_header.hh (the UDT4 layout, which the build selects).
pub mod Fields
mod Tests
use octopus_mahimahi.Common.{
  ℕ, zero, suc, ◌+◌, ◌*◌, ◌/◌, ◌%◌, ◌^◌, ◌≡◌, Bool, false, true, not, ◌&&◌, ◌||◌, List, [], ◌∷◌,
  Option, none, some, Result, ok, fail, undefined, ◌>>=◌, length, ◌==◌, if◌then◌else◌,
}

abbrev pub Bytes : Type 0
Bytes = List ℕ

pub record QueuedPacket : Type 0 where
  pub arrival_time : ℕ
  pub contents : Bytes
  pub is_drop : Bool

-- `QueuedPacket( s_contents, s_arrival_time )`
abbrev pub queued : Bytes → ℕ → QueuedPacket
queued s_contents s_arrival_time = record {
  arrival_time = s_arrival_time;
  contents = s_contents;
  is_drop = false;
}

-- `p.contents.size()`
abbrev pub size : QueuedPacket → ℕ
size p = length p.contents

pub data PktPos : Type 0 where
  first last mid solo : PktPos

-- The byte `c_str()[ i ]`: one past the end stands the terminating zero, and there is none further.
unfoldable pub byte_at : Bytes → ℕ → Result ℕ
byte_at [] zero = ok 0
byte_at [] (suc i) = fail undefined
byte_at (b ∷ s) zero = ok b
byte_at (b ∷ s) (suc i) = byte_at s i

-- `memcpy` of four bytes at an offset, and `ntohl`.
unfoldable pub word_at : Bytes → ℕ → Result ℕ
word_at s i = do
  b0 ← byte_at s i
  b1 ← byte_at s (1 + i)
  b2 ← byte_at s (2 + i)
  b3 ← byte_at s (3 + i)
  ok (b0 * 2 ^ 24 + b1 * 2 ^ 16 + b2 * 2 ^ 8 + b3)

pub record PacketHeader : Type 0 where
  pub seq : ℕ
  pub msg_field : ℕ
  pub wildcard : ℕ
  pub ip_field : ℕ
  pub udp_field : ℕ

abbrev pub app_header_offset : ℕ
app_header_offset = 32

-- The constructor `PacketHeader( payload )`.
unfoldable pub packet_header : Bytes → Result PacketHeader
packet_header payload = do
  ip_field ← word_at payload 12
  udp_field ← word_at payload 24
  seq ← word_at payload app_header_offset
  msg_field ← word_at payload (app_header_offset + 4)
  wildcard ← word_at payload (app_header_offset + 8)
  ok (record {
    seq = seq;
    msg_field = msg_field;
    wildcard = wildcard;
    ip_field = ip_field;
    udp_field = udp_field;
  })

-- `( w & mask ) >> lo` for the mask of `width` ones from bit `lo` on.
abbrev pub bits : ℕ → ℕ → ℕ → ℕ
bits w lo width = w / 2 ^ lo % 2 ^ width

unfoldable pub msg_no : PacketHeader → ℕ
msg_no h = bits h.msg_field 0 29

unfoldable pub pkt_pos : PacketHeader → PktPos
pkt_pos h =
    if bits h.msg_field 30 2 == 2
    then first
    else if bits h.msg_field 30 2 == 1
    then last
    else if bits h.msg_field 30 2 == 0
    then mid
    else solo

unfoldable pub priority : PacketHeader → ℕ
priority h = bits h.wildcard 29 3

unfoldable pub priority_threshold : PacketHeader → ℕ
priority_threshold h = bits h.wildcard 26 3

unfoldable pub is_preempt : PacketHeader → Bool
is_preempt h = not (bits h.wildcard 25 1 == 0)

unfoldable pub slack_time : PacketHeader → ℕ
slack_time h = bits h.wildcard 16 9

unfoldable pub bitrate : PacketHeader → ℕ
bitrate h = bits h.wildcard 0 16

unfoldable pub is_udp : PacketHeader → Bool
is_udp h = bits h.ip_field 16 8 == 17

-- `seq_ & 0xa0000000` is zero when bits 31 and 29 are.
unfoldable pub is_octopus : PacketHeader → Bool
unfolding is_udp
is_octopus h = is_udp h && not (not (bits h.seq 31 1 == 0) || not (bits h.seq 29 1 == 0))

unfoldable pub dstport : PacketHeader → ℕ
dstport h = bits h.udp_field 0 16
