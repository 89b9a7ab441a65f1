-- ===== src/Channel/Multicast.antt =====
-- The datagrams that go to the multicast sockets (`send_func` of src/mumudvb_common.c).
use mu_mu_dvb.Channel.Buffer.{rtp_header_len, fill, buffer_packet, Sending, send_func, Channel}
use mu_mu_dvb.Channel.Buffer.{is_full}
use mu_mu_dvb.Crc.Append.{be32}
use mu_mu_dvb.Prelude.{subst, ◌∙◌, length-append, ap₂, sym, ◌^◌, take_all, ◌%◌, map, ap}
use mu_mu_dvb.Prelude.{Bool-cases, take, ◌++◌, length, ◌≡◌, ◌+◌, ℕ, List, [], ◌∷◌, none, some}
use mu_mu_dvb.Prelude.{true, false, Bool, Option, refl, arith, inl, inr}
use mu_mu_dvb.Channel.Rtp.{RtpChannel, rtp_update_sequence_number}
use mu_mu_dvb.Channel.Sequence.{IsRtp, rtp_header, update_header, update-IsRtp, clock}

-- A packet that comes in, whether it is to be sent, and the time.
abbrev pub Input : Type 0
Input = List ℕ × (Bool × ℕ)

abbrev pub buffer_packets : Channel → List Input → Channel × List (Option Sending)
buffer_packets c [] = (c, [])
buffer_packets c ((ts_packet, (send_packet, now)) ∷ xs) =
    let (c', sending) = buffer_packet c ts_packet send_packet now in
    let (last, sendings) = buffer_packets c' xs in (last, sending ∷ sendings)

-- What goes to the multicast sockets after a packet.
abbrev pub datagram_of : Option Sending → Option (List ℕ)
datagram_of none = none
datagram_of (some s) = s.datagram

-- What should go there: nothing with no socket open, and else the bytes that go to the unicast
-- clients, with RTP behind a header with its number and the time.
abbrev pub expected_datagram : Bool → Bool → ℕ → ℕ → List ℕ → List ℕ → Option (List ℕ)
expected_datagram false rtp number now source bytes = none
expected_datagram true true number now source bytes = some (rtp_header number now source ++ bytes)
expected_datagram true false number now source bytes = some bytes

-- Where something is sent the number of the next header is one more, modulo 2^16.
abbrev pub expected_datagrams :
    Bool → Bool → ℕ → List ℕ → List Input → List (Option Sending) → List (Option (List ℕ))
expected_datagrams multicast rtp number source [] sendings = []
expected_datagrams multicast rtp number source (x ∷ xs) [] = []
expected_datagrams multicast rtp number source (x ∷ xs) (none ∷ ss) =
    none ∷ expected_datagrams multicast rtp number source xs ss
expected_datagrams multicast rtp number source (x ∷ xs) (some s ∷ ss) =
    expected_datagram multicast rtp number x.1.1 source s.unicast
    ∷ expected_datagrams multicast rtp ((number + 1) % 2 ^ 16) source xs ss

-- The header, where one is used, is one of RTP, and the number of the next one is known.
abbrev pub IsNumbered : Bool → Bool → RtpChannel → List ℕ → ℕ → Type 0
IsNumbered true true header source number = IsRtp header source × (header.rtp_packet_num ≡ number)
IsNumbered true false header source number = Unit
IsNumbered false rtp header source number = Unit

next_number : Option Sending → ℕ → ℕ
next_number none number = number
next_number (some s) number = (number + 1) % 2 ^ 16

-- What one packet does, for a channel with a multicast socket or none, and with RTP or not.
record Datagram (multicast rtp : Bool) (now number : ℕ) (source : List ℕ) (c : Channel)
    (sending : Option Sending) : Type 0 where
  same_multicast : c.multicast ≡ multicast
  same_rtp : c.rtp ≡ rtp
  numbered : IsNumbered multicast rtp c.header source (next_number sending number)
  right :
      (s : Sending)
      → sending ≡ some s
      → s.datagram ≡ expected_datagram multicast rtp number now source s.unicast

some_sending_inj : {x y : Sending} → some x ≡ some y → x ≡ y
some_sending_inj e = cc e

whole_header :
    (number now : ℕ) (source : List ℕ)
    → length source ≡ 4
    → take rtp_header_len (rtp_header number now source) ≡ rtp_header number now source
whole_header number now source four =
    take_all rtp_header_len (rtp_header number now source)
      (omega (arith, length-append (be32 (clock now)) source, four))

next_packet_num :
    (h : RtpChannel) (time k : ℕ)
    → h.rtp_packet_num ≡ k
    → (rtp_update_sequence_number h time).rtp_packet_num ≡ (k + 1) % 2 ^ 16
unfolding rtp_update_sequence_number
next_packet_num h time k e = ap (λ (j : ℕ). (j + 1) % 2 ^ 16) e

sent-Datagram :
    (multicast rtp : Bool) (c : Channel) (now number : ℕ) (source : List ℕ)
    → c.multicast ≡ multicast
    → c.rtp ≡ rtp
    → IsNumbered multicast rtp c.header source number
    → let (c', s) = send_func c now in Datagram multicast rtp now number source c' (some s)
unfolding send_func next_number
sent-Datagram false rtp c now number source m r n = record {
  same_multicast = m;
  same_rtp = r;
  numbered = tt;
  right = λ s e. ap (λ (x : Sending). x.datagram) (sym (some_sending_inj e)) ∙ rw m refl;
}
sent-Datagram true false c now number source m r n = record {
  same_multicast = m;
  same_rtp = r;
  numbered = tt;
  right = λ s e.
      subst (λ (x : Sending). x.datagram ≡ some x.unicast) (some_sending_inj e) (rw (m, r) refl);
}
sent-Datagram true true c now number source m r n =
    let up : IsRtp (rtp_update_sequence_number c.header now) source =
      update-IsRtp c.header source now n.0 in
    let header =
      update_header c.header source now n.0 ∙ ap (λ (k : ℕ). rtp_header k now source) n.1 in
    record {
      same_multicast = m;
      same_rtp = r;
      numbered = rw (m, r) (up, next_packet_num c.header now number n.1);
      right = λ s e.
          subst (λ (x : Sending). x.datagram ≡ some (rtp_header number now source ++ x.unicast))
            (some_sending_inj e)
            (rw (m, r)
              (ap (λ (h : List ℕ). some (h ++ take c.nb_bytes c.buf))
                (ap (take rtp_header_len) header ∙ whole_header number now source n.0.four)));
    }

packet-Datagram :
    (multicast rtp : Bool) (c : Channel) (ts_packet : List ℕ) (send_packet : Bool) (now number : ℕ)
    (source : List ℕ)
    → c.multicast ≡ multicast
    → c.rtp ≡ rtp
    → IsNumbered multicast rtp c.header source number
    → let (c', s) = buffer_packet c ts_packet send_packet now in
      Datagram multicast rtp now number source c' s
unfolding buffer_packet fill next_number
packet-Datagram multicast rtp c ts_packet true now number source m r n =
    let filled = fill c ts_packet true in
    elim (Bool-cases (is_full filled)) [
      | inl full ↦ rw full (sent-Datagram multicast rtp filled now number source m r n)
      | inr more ↦ rw more (record {
        same_multicast = m;
        same_rtp = r;
        numbered = n;
        right = λ s e. absurd (ground (arith, e));
      })
    ]
packet-Datagram multicast rtp c ts_packet false now number source m r n =
    elim (Bool-cases (is_full c)) [
      | inl full ↦ rw full (sent-Datagram multicast rtp c now number source m r n)
      | inr more ↦ rw more (record {
        same_multicast = m;
        same_rtp = r;
        numbered = n;
        right = λ s e. absurd (ground (arith, e));
      })
    ]

add_datagram :
    (multicast rtp : Bool) (number : ℕ) (source : List ℕ) (x : Input) (xs : List Input)
    (o : Option Sending) (ss : List (Option Sending))
    → ((s : Sending)
        → o ≡ some s
        → s.datagram ≡ expected_datagram multicast rtp number x.1.1 source s.unicast)
    → map datagram_of ss ≡ expected_datagrams multicast rtp (next_number o number) source xs ss
    → map datagram_of (o ∷ ss) ≡ expected_datagrams multicast rtp number source (x ∷ xs) (o ∷ ss)
unfolding next_number
add_datagram multicast rtp number source x xs none ss right e =
    ap (λ (l : List (Option (List ℕ))). none ∷ l) e
add_datagram multicast rtp number source x xs (some s) ss right e =
    ap₂ (λ (d : Option (List ℕ)) (l : List (Option (List ℕ))). d ∷ l) (right s refl) e

pub datagrams_lem :
    (multicast rtp : Bool) (xs : List Input) (c : Channel) (number : ℕ) (source : List ℕ)
    → c.multicast ≡ multicast
    → c.rtp ≡ rtp
    → IsNumbered multicast rtp c.header source number
    → let sendings = (buffer_packets c xs).1 in
      map datagram_of sendings ≡ expected_datagrams multicast rtp number source xs sendings
datagrams_lem multicast rtp [] c number source m r n = refl
datagrams_lem multicast rtp ((ts_packet, (send_packet, now)) ∷ xs) c number source m r n =
    let z = buffer_packet c ts_packet send_packet now in
    let d = packet-Datagram multicast rtp c ts_packet send_packet now number source m r n in
    add_datagram multicast rtp number source (ts_packet, (send_packet, now)) xs z.1
      (buffer_packets z.0 xs).1 d.right
      (datagrams_lem multicast rtp xs z.0 (next_number z.1 number) source d.same_multicast
        d.same_rtp d.numbered)
