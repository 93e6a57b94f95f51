-- ===== src/Packet/Fields.antt =====
-- What the header's accessors read, and which packets they can be read from.
use octopus_mahimahi.Common.{
  ℕ, zero, suc, ◌+◌, ◌*◌, ◌/◌, ◌%◌, ◌^◌, ◌≤◌, ◌<◌, ◌≡◌, refl, ap, sym, append_assoc, length-append,
  ◌++◌, [], ◌∷◌, arith, ok, fail, undefined, length,
}
use octopus_mahimahi.Packet.{
  Bytes, PacketHeader, byte_at, word_at, packet_header, msg_no, priority, priority_threshold,
  slack_time, bitrate,
}

byte_at_in : (s : Bytes) (i : ℕ) → i ≤ length s → (b : ℕ) × (byte_at s i ≡ ok b)
unfolding byte_at
byte_at_in [] zero h = (0, refl)
byte_at_in [] (suc i) h = absurd (omega arith)
byte_at_in (b ∷ s) zero h = (b, refl)
byte_at_in (b ∷ s) (suc i) h = byte_at_in s i (omega arith)

byte_at_out : (s : Bytes) (i : ℕ) → length s < i → byte_at s i ≡ fail undefined
unfolding byte_at
byte_at_out [] zero h = absurd (omega arith)
byte_at_out [] (suc i) h = refl
byte_at_out (b ∷ s) zero h = absurd (omega arith)
byte_at_out (b ∷ s) (suc i) h = byte_at_out s i (omega arith)

word_at_in : (s : Bytes) (i : ℕ) → 3 + i ≤ length s → (w : ℕ) × (word_at s i ≡ ok w)
unfolding word_at
word_at_in s i h =
    let (b0, e0) = byte_at_in s i (omega arith) in
    let (b1, e1) = byte_at_in s (1 + i) (omega arith) in
    let (b2, e2) = byte_at_in s (2 + i) (omega arith) in
    let (b3, e3) = byte_at_in s (3 + i) h in
    (b0 * 2 ^ 24 + b1 * 2 ^ 16 + b2 * 2 ^ 8 + b3, rw (e0, e1, e2, e3))

word_at_out : (s : Bytes) (i : ℕ) → length s < 3 + i → word_at s i ≡ fail undefined
unfolding word_at
word_at_out s i h = ground (
  arith,
  byte_at_in s i,
  byte_at_out s i,
  byte_at_in s (1 + i),
  byte_at_out s (1 + i),
  byte_at_in s (2 + i),
  byte_at_out s (2 + i),
  byte_at_out s (3 + i),
)

-- From 43 bytes on, the header is read.
pub packet_header_total :
    (s : Bytes) → 43 ≤ length s → (h : PacketHeader) × (packet_header s ≡ ok h)
unfolding packet_header
packet_header_total s h =
    let (ip, e0) = word_at_in s 12 (omega arith) in
    let (udp, e1) = word_at_in s 24 (omega arith) in
    let (sq, e2) = word_at_in s 32 (omega arith) in
    let (mf, e3) = word_at_in s 36 (omega arith) in
    let (wc, e4) = word_at_in s 40 (omega arith) in
    (
      record { seq = sq; msg_field = mf; wildcard = wc; ip_field = ip; udp_field = udp },
      rw (e0, e1, e2, e3, e4),
    )

-- A payload of fewer than 43 bytes is read past its end.
pub packet_header_short : (s : Bytes) → length s < 43 → packet_header s ≡ fail undefined
unfolding packet_header
packet_header_short s h = ground (
  arith,
  word_at_in s 12,
  word_at_out s 12,
  word_at_in s 24,
  word_at_out s 24,
  word_at_in s 32,
  word_at_out s 32,
  word_at_in s 36,
  word_at_out s 36,
  word_at_out s 40,
)

pub field_bounds :
    (h : PacketHeader)
    → (priority h < 8)
      × (priority_threshold h < 8)
      × (slack_time h < 512)
      × (bitrate h < 2 ^ 16)
      × (msg_no h < 2 ^ 29)
unfolding priority priority_threshold slack_time bitrate msg_no
field_bounds h = omega arith

-- `htonl` and the four bytes in memory.
abbrev pub word_bytes : ℕ → Bytes
word_bytes w = w / 2 ^ 24 % 256 ∷ w / 2 ^ 16 % 256 ∷ w / 2 ^ 8 % 256 ∷ w % 256 ∷ []

byte_at-append : (pre s : Bytes) (i : ℕ) → byte_at (pre ++ s) (i + length pre) ≡ byte_at s i
unfolding byte_at
byte_at-append [] s i = ap (byte_at s) (omega arith)
byte_at-append (b ∷ pre) s i =
    let e : i + suc (length pre) ≡ suc (i + length pre) = omega arith in
    rw e (byte_at-append pre s i)

byte_at-append_start : (pre s : Bytes) → byte_at (pre ++ s) (length pre) ≡ byte_at s 0
byte_at-append_start pre s =
    let e : 0 + length pre ≡ length pre = omega arith in rw e at (byte_at-append pre s 0)

word_at-word_bytes :
    (pre rest : Bytes) (w n : ℕ)
    → w < 2 ^ 32
    → n ≡ length pre
    → word_at (pre ++ (word_bytes w ++ rest)) n ≡ ok w
unfolding word_at byte_at
word_at-word_bytes pre rest w n h e =
    rw (e, read 1, read 2, read 3, byte_at-append_start pre (word_bytes w ++ rest))
      (ap ok (omega arith))
  where
    read :
        (k : ℕ)
        → byte_at (pre ++ (word_bytes w ++ rest)) (k + length pre)
          ≡ byte_at (word_bytes w ++ rest) k
    read = byte_at-append pre (word_bytes w ++ rest)

-- A TUN frame: 12 bytes, the second word of the IP header, 8 bytes, the second word of the UDP
-- header, 4 bytes, and the three words of the UDT header before the data.
abbrev pub frame : Bytes → Bytes → Bytes → PacketHeader → Bytes → Bytes
frame a b c h rest =
    a
    ++ (word_bytes h.ip_field
        ++ (b
            ++ (word_bytes h.udp_field
                ++ (c
                    ++ (word_bytes h.seq
                        ++ (word_bytes h.msg_field ++ (word_bytes h.wildcard ++ rest)))))))

pub record IsHeader (h : PacketHeader) : Type 0 where
  pub seq_lt : h.seq < 2 ^ 32
  pub msg_field_lt : h.msg_field < 2 ^ 32
  pub wildcard_lt : h.wildcard < 2 ^ 32
  pub ip_field_lt : h.ip_field < 2 ^ 32
  pub udp_field_lt : h.udp_field < 2 ^ 32

-- A word at an offset of a frame, given the frame split there.
word_at_split :
    (s pre rest : Bytes) (w n : ℕ)
    → s ≡ pre ++ (word_bytes w ++ rest)
    → w < 2 ^ 32
    → n ≡ length pre
    → word_at s n ≡ ok w
word_at_split s pre rest w n e h l = rw e (word_at-word_bytes pre rest w n h l)

-- A header with words below 2^32, written in network order at its place in a frame, is read
-- back whole.
pub packet_header-frame :
    (a b c rest : Bytes) (h : PacketHeader)
    → IsHeader h
    → length a ≡ 12
    → length b ≡ 8
    → length c ≡ 4
    → packet_header (frame a b c h rest) ≡ ok h
unfolding packet_header
packet_header-frame a b c rest h v ea eb ec = rw (ip, udp, sq, msg, wild)
  where
    fr : Bytes
    fr = frame a b c h rest

    tail : Bytes
    tail = word_bytes h.msg_field ++ (word_bytes h.wildcard ++ rest)

    pre1 : Bytes
    pre1 = (a ++ word_bytes h.ip_field) ++ b

    pre2 : Bytes
    pre2 = (pre1 ++ word_bytes h.udp_field) ++ c

    size1 : length pre1 ≡ 24
    size1 = omega (
      arith,
      length-append (a ++ word_bytes h.ip_field) b,
      length-append a (word_bytes h.ip_field),
    )

    size2 : length pre2 ≡ 32
    size2 = omega (
      arith,
      length-append (pre1 ++ word_bytes h.udp_field) c,
      length-append pre1 (word_bytes h.udp_field),
      size1,
    )

    ip : word_at fr 12 ≡ ok h.ip_field
    ip = word_at_split fr a _ h.ip_field 12 refl v.ip_field_lt (sym ea)

    udp : word_at fr 24 ≡ ok h.udp_field
    udp =
        word_at_split fr pre1 (c ++ (word_bytes h.seq ++ tail)) h.udp_field 24 (simp append_assoc)
          v.udp_field_lt (sym size1)

    sq : word_at fr 32 ≡ ok h.seq
    sq = word_at_split fr pre2 tail h.seq 32 (simp append_assoc) v.seq_lt (sym size2)

    msg : word_at fr 36 ≡ ok h.msg_field
    msg =
        word_at_split fr (pre2 ++ word_bytes h.seq) (word_bytes h.wildcard ++ rest) h.msg_field 36
          (simp append_assoc) v.msg_field_lt
          (omega (arith, length-append pre2 (word_bytes h.seq), size2))

    wild : word_at fr 40 ≡ ok h.wildcard
    wild =
        word_at_split fr (pre2 ++ (word_bytes h.seq ++ word_bytes h.msg_field)) rest h.wildcard 40
          (simp append_assoc) v.wildcard_lt
          (omega (arith, length-append pre2 (word_bytes h.seq ++ word_bytes h.msg_field), size2))
