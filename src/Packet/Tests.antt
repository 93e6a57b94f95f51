-- ===== src/Packet/Tests.antt =====
-- Tests of the packet header, and instances of its theorems.
use octopus_mahimahi.Common.{ℕ, ◌+◌, ◌*◌, ◌^◌, ◌≡◌, refl, true, arith, ok, replicate}
use octopus_mahimahi.Packet.{
  Bytes, PacketHeader, packet_header, priority, priority_threshold, is_preempt, slack_time, bitrate,
  pkt_pos, solo, is_octopus, dstport, msg_no,
}
use octopus_mahimahi.Packet.Fields.{IsHeader, frame, packet_header_total, packet_header-frame}

-- A UDP packet to port 5000: priority 5, threshold 3, preempting, slack 20 ms, bitrate 1200.
abbrev header : PacketHeader
header = record {
  seq = 7;
  msg_field = 0xc000_0009;
  wildcard = 5 * 2 ^ 29 + 3 * 2 ^ 26 + 2 ^ 25 + 20 * 2 ^ 16 + 1200;
  ip_field = 0x4011_0000;
  udp_field = 5000;
}

header-IsHeader : IsHeader header
header-IsHeader = omega arith

abbrev zeros : ℕ → Bytes
zeros n = replicate n 0

fields_read :
    (priority header ≡ 5)
    × (priority_threshold header ≡ 3)
    × (is_preempt header ≡ true)
    × (slack_time header ≡ 20)
    × (bitrate header ≡ 1200)
    × (pkt_pos header ≡ solo)
    × (msg_no header ≡ 9)
    × (is_octopus header ≡ true)
    × (dstport header ≡ 5000)
unfolding priority priority_threshold is_preempt slack_time bitrate pkt_pos msg_no is_octopus
    dstport
fields_read = (refl, refl, refl, refl, refl, refl, refl, refl, refl)

packet_header-frame_example :
    packet_header (frame (zeros 12) (zeros 8) (zeros 4) header (zeros 3)) ≡ ok header
packet_header-frame_example =
    packet_header-frame (zeros 12) (zeros 8) (zeros 4) (zeros 3) header header-IsHeader refl refl
      refl

packet_header_total_example : (h : PacketHeader) × (packet_header (zeros 43) ≡ ok h)
packet_header_total_example = packet_header_total (zeros 43) (omega arith)
