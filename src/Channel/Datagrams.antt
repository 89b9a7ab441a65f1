-- ===== src/Channel/Datagrams.antt =====
-- What a channel sends are the packets that came in, in their order (`buffer_func` and `send_func`
-- of src/mumudvb_common.c).
use mu_mu_dvb.Channel.Multicast.{datagrams_lem, expected_datagrams, datagram_of, IsNumbered}
use mu_mu_dvb.Channel.Multicast.{buffer_packets, Input}
use mu_mu_dvb.Prelude.{map, ap, take-memcpy, append_assoc, All, take_all, length-memcpy, ◌+◌}
use mu_mu_dvb.Prelude.{append-nil, length-take, ◌∙◌, sym, ◌≤◌, if◌then◌else◌, Bool, Bool-cases}
use mu_mu_dvb.Prelude.{Option, ◌++◌, ◌<◌, ◌%◌, ltb, ◌≡◌, take, length, refl, ℕ, List, [], ◌∷◌}
use mu_mu_dvb.Prelude.{arith, some, none, true, false, inl, inr}
use mu_mu_dvb.Channel.Buffer.{fill, buffer_packet, Sending, send_func, ts_packet_size}
use mu_mu_dvb.Channel.Buffer.{max_udp_size, is_full, Channel}

-- The number of bytes at which the buffer is sent: seven packets.
abbrev pub seven_packets : ℕ
seven_packets = 1316

-- Between two packets the buffer has its size, holds whole packets, and has room for another.
pub record IsOpen (c : Channel) : Type 0 where
  pub size : length c.buf ≡ max_udp_size
  pub whole : c.nb_bytes % ts_packet_size ≡ 0
  pub room : c.nb_bytes < seven_packets

-- The bytes that wait.
abbrev pub waiting : Channel → List ℕ
waiting c = take c.nb_bytes c.buf

-- The bytes of a packet that is to be sent.
abbrev pub accepted : Input → List ℕ
accepted (ts_packet, (send_packet, now)) = if send_packet then ts_packet else []

abbrev pub accepted_all : List Input → List ℕ
accepted_all [] = []
accepted_all (x ∷ xs) = accepted x ++ accepted_all xs

-- The bytes that went out.
abbrev pub sent_bytes : Option Sending → List ℕ
sent_bytes none = []
sent_bytes (some s) = s.unicast

abbrev pub sent_all : List (Option Sending) → List ℕ
sent_all [] = []
sent_all (s ∷ ss) = sent_bytes s ++ sent_all ss

-- Nothing is sent, or seven packets are.
abbrev pub IsSeven : Option Sending → Type 0
IsSeven none = Unit
IsSeven (some s) = length s.unicast ≡ seven_packets

-- What one packet does.
record Step (c c' : Channel) (bytes : List ℕ) (sending : Option Sending) : Type 0 where
  open_again : IsOpen c'
  order : sent_bytes sending ++ waiting c' ≡ waiting c ++ bytes
  seven : IsSeven sending

-- With or without an RTP header, the buffer is full with the seventh packet.
is_full_lem : (c : Channel) → c.nb_bytes % ts_packet_size ≡ 0 → is_full c ≡ ltb 1128 c.nb_bytes
unfolding is_full
is_full_lem c whole = elim (Bool-cases c.rtp) [
  | inl rtp ↦ rw rtp (ground (arith, whole))
  | inr plain ↦ rw plain (ground (arith, whole))
]

-- A filled buffer is sent, or waits.
send_if_full :
    (c : Channel) (now : ℕ)
    → length c.buf ≡ max_udp_size
    → c.nb_bytes % ts_packet_size ≡ 0
    → c.nb_bytes ≤ seven_packets
    → let (emptied, sending) = send_func c now in
      (is_full c ≡ true → Step c emptied [] (some sending)) × (is_full c ≡ false → Step c c [] none)
unfolding send_func
send_if_full c now size whole le = (
  λ full. record {
    open_again = record { size = size; whole = refl; room = omega arith };
    order = refl;
    seven = omega (arith, length-take c.nb_bytes c.buf, exactly full);
  },
  λ more. record {
    open_again = record { size = size; whole = whole; room = below more };
    order = sym (append-nil (waiting c));
    seven = tt;
  },
)
  where
    exactly : is_full c ≡ true → c.nb_bytes ≡ seven_packets
    exactly full = ground (arith, sym (is_full_lem c whole) ∙ full, whole, le)

    below : is_full c ≡ false → c.nb_bytes < seven_packets
    below more = ground (arith, sym (is_full_lem c whole) ∙ more)

-- A packet that is to be sent stands behind the others.
waiting-fill :
    (c : Channel) (ts_packet : List ℕ)
    → IsOpen c
    → length ts_packet ≡ ts_packet_size
    → waiting (fill c ts_packet true) ≡ waiting c ++ ts_packet
unfolding fill
waiting-fill c ts_packet o len = rw (take_all ts_packet_size ts_packet (omega arith)) (
    take-memcpy (c.nb_bytes + ts_packet_size) c.buf c.nb_bytes ts_packet (omega arith)
      (omega (arith, o.size, o.room, o.whole)))

-- What is done to a filled buffer is done to the channel and its packet.
after_fill :
    (c filled c' : Channel) (bytes : List ℕ) (sending : Option Sending)
    → waiting filled ≡ waiting c ++ bytes
    → Step filled c' [] sending
    → Step c c' bytes sending
after_fill c filled c' bytes sending e s = record {
  open_again = s.open_again;
  order = s.order ∙ append-nil (waiting filled) ∙ e;
  seven = s.seven;
}

step :
    (c : Channel) (ts_packet : List ℕ) (send_packet : Bool) (now : ℕ)
    → IsOpen c
    → length ts_packet ≡ ts_packet_size
    → let (c', sending) = buffer_packet c ts_packet send_packet now in
      Step c c' (accepted (ts_packet, (send_packet, now))) sending
unfolding buffer_packet fill
step c ts_packet false now o len = elim (Bool-cases (is_full c)) [
  | inl full ↦ rw full ((send_if_full c now o.size o.whole (omega (arith, o.room))).0 full)
  | inr more ↦ rw more ((send_if_full c now o.size o.whole (omega (arith, o.room))).1 more)
]
step c ts_packet true now o len =
    let filled = fill c ts_packet true in
    let whole : (c.nb_bytes + ts_packet_size) % ts_packet_size ≡ 0 = omega (arith, o.whole) in
    let le : c.nb_bytes + ts_packet_size ≤ seven_packets = omega (arith, o.whole, o.room) in
    let size : length filled.buf ≡ max_udp_size =
      length-memcpy c.buf c.nb_bytes (take ts_packet_size ts_packet) ∙ o.size in
    let sent = send_if_full filled now size whole le in
    let behind : waiting filled ≡ waiting c ++ ts_packet = waiting-fill c ts_packet o len in
    elim (Bool-cases (is_full filled)) [
      | inl full ↦ rw full (
          after_fill c filled (send_func filled now).0 ts_packet (some (send_func filled now).1)
            behind (sent.0 full))
      | inr more ↦ rw more (after_fill c filled filled ts_packet none behind (sent.1 more))
    ]

order_lem :
    (xs : List Input) (c : Channel)
    → IsOpen c
    → All (λ (x : Input). length x.0 ≡ ts_packet_size) xs
    → let (c', sendings) = buffer_packets c xs in
      IsOpen c'
      × (sent_all sendings ++ waiting c' ≡ waiting c ++ accepted_all xs)
      × All IsSeven sendings
order_lem [] c o sizes = (o, sym (append-nil (waiting c)), tt)
order_lem ((ts_packet, (send_packet, now)) ∷ xs) c o sizes =
    let s = step c ts_packet send_packet now o sizes.0 in
    let (c', sending) = buffer_packet c ts_packet send_packet now in
    let (last, sendings) = buffer_packets c' xs in
    let bytes = accepted (ts_packet, (send_packet, now)) in
    let rest = order_lem xs c' s.open_again sizes.1 in
    (
      rest.0,
      append_assoc (sent_bytes sending) (sent_all sendings) (waiting last)
          ∙ ap (λ (b : List ℕ). sent_bytes sending ++ b) rest.1
          ∙ sym (append_assoc (sent_bytes sending) (waiting c') (accepted_all xs))
          ∙ ap (λ (b : List ℕ). b ++ accepted_all xs) s.order
          ∙ append_assoc (waiting c) bytes (accepted_all xs),
      (s.seven, rest.2),
    )

-- Packets of 188 bytes, any of which may be left out, on a channel with or without RTP, with or
-- without a multicast socket, and not descrambled in software; with both RTP and such a socket its
-- header is one of RTP, with `number` for the next one: before and after, the buffer has room for
-- another packet; the bytes that went out to the unicast clients and then those that wait are those
-- that waited and then the packets that were to be sent, in order; what goes out at once is seven
-- packets; and with a multicast socket the same bytes go there at once, with RTP behind a header
-- that counts on from `number` modulo 2^16 and has the time of the packet that filled the buffer.
pub buffer_packets_lem :
    (xs : List Input) (c : Channel) (number : ℕ) (source : List ℕ)
    → IsOpen c
    → All (λ (x : Input). length x.0 ≡ ts_packet_size) xs
    → IsNumbered c.multicast c.rtp c.header source number
    → let (c', sendings) = buffer_packets c xs in
      IsOpen c'
      × (sent_all sendings ++ waiting c' ≡ waiting c ++ accepted_all xs)
      × All IsSeven sendings
      × (map datagram_of sendings ≡ expected_datagrams c.multicast c.rtp number source xs sendings)
buffer_packets_lem xs c number source o sizes numbered =
    let order = order_lem xs c o sizes in
    (
      order.0,
      order.1,
      order.2,
      datagrams_lem c.multicast c.rtp xs c number source refl refl numbered,
    )
