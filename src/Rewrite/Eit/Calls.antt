-- ===== src/Rewrite/Eit/Calls.antt =====
-- Calls of `get_ts_packet` (src/ts.c) for the packets of one section, and what its pieces begin with.
use mu_mu_dvb.Rewrite.Bytes.{get_or-replicate, byte_at-middle}
use mu_mu_dvb.Prelude.{◌-◌, leb, Bool-cases, sym, get_or-append, u8, ap, ◌<◌, replicate, subst}
use mu_mu_dvb.Prelude.{◌≤◌, ◌∙◌, ◌++◌, All, ◌+◌, ◌≡◌, Option, length, ℕ, List, [], ◌∷◌, none}
use mu_mu_dvb.Prelude.{some, false, refl, arith, inl, inr}
use mu_mu_dvb.Ts.Deliver.{get_ts_packet-nil}
use mu_mu_dvb.Ts.Store.{Holds, pop-cons, push}
use mu_mu_dvb.Rewrite.Eit.Carry.{is_start_code}
use mu_mu_dvb.Rewrite.Delivered.{push_one}
use mu_mu_dvb.Ts.Packet.{ts_packet_size, TsPacket}
use mu_mu_dvb.Ts.Valid.{IsValid, IsSound}
use mu_mu_dvb.Crc.Calc.{byte_at}
use mu_mu_dvb.Ts.Run.{received}
use mu_mu_dvb.Ts.Get.{get_ts_packet}

pub received_step :
    (pk : List ℕ) (bufs : List (Option (List ℕ))) (p : TsPacket)
    → length pk ≡ ts_packet_size
    → IsValid p []
    → received (some pk ∷ bufs) p ≡ received bufs (get_ts_packet (some pk) p).0
unfolding received
received_step pk bufs p size v = rw (get_ts_packet-nil (some pk) p size v).0 refl

received_last :
    (p : TsPacket) (s : List ℕ) → IsSound s → IsValid p (s ∷ []) → received (none ∷ []) p ≡ s ∷ []
unfolding received get_ts_packet
received_last p s sound v =
    let popped = pop-cons p s [] v.fits v.holds sound.small in rw (popped.0, popped.2) refl

-- The state after a packet, with what its store holds.
pub called-IsValid :
    (pk : List ℕ) (p : TsPacket) (q : List (List ℕ))
    → length pk ≡ ts_packet_size
    → IsValid p []
    → All IsSound q
    → Holds (get_ts_packet (some pk) p).0 q
    → IsValid (get_ts_packet (some pk) p).0 q
called-IsValid pk p q size v sound holds =
    let after = (get_ts_packet-nil (some pk) p size v).3.2 in
    record { fits = after.fits; holds = holds; sound = sound; progress = after.progress }

push_sound : (s : List ℕ) → IsSound s → push [] s ≡ s ∷ []
push_sound s sound = push_one s (omega (arith, sound.small))

-- A packet that brings the end of a section, which the next call reports.
pub received_end :
    (pk : List ℕ) (p : TsPacket) (s : List ℕ)
    → length pk ≡ ts_packet_size
    → IsValid p []
    → IsSound s
    → Holds (get_ts_packet (some pk) p).0 (push [] s)
    → received (some pk ∷ none ∷ []) p ≡ s ∷ []
received_end pk p s size v sound holds =
    received_step pk (none ∷ []) p size v
    ∙ received_last (get_ts_packet (some pk) p).0 s sound (
        called-IsValid pk p (s ∷ []) size v (sound, tt)
          (subst (λ (q : List (List ℕ)). Holds (get_ts_packet (some pk) p).0 q) (push_sound s sound)
            holds))

same_code :
    (a b : List ℕ) (i j : ℕ)
    → byte_at a i ≡ byte_at b j
    → byte_at a (i + 1) ≡ byte_at b (j + 1)
    → byte_at a (i + 2) ≡ byte_at b (j + 2)
    → is_start_code a i ≡ is_start_code b j
same_code a b i j h0 h1 h2 = rw (h0, h1, h2) refl

-- A piece of a section with stuffing behind it does not begin with a start code if the section has none
-- there.
pub piece_code :
    (bytes r rest : List ℕ) (n m : ℕ)
    → length bytes ≡ m
    → is_start_code (bytes ++ (r ++ rest)) m ≡ false
    → 3 ≤ length r + n
    → is_start_code (r ++ replicate n 0xff) 0 ≡ false
piece_code bytes r rest n m e plain long = elim (Bool-cases (leb 3 (length r))) [
  | inl whole ↦
      same_code (r ++ replicate n 0xff) (bytes ++ (r ++ rest)) 0 m
        (same 0 (ground (arith, whole))
          ∙ ap (byte_at (bytes ++ (r ++ rest))) {x = m + 0} (omega arith))
        (same 1 (ground (arith, whole))) (same 2 (ground (arith, whole)))
      ∙ plain
  | inr short ↦
      let last : byte_at (r ++ replicate n 0xff) 2 ≡ 0xff =
        ap (byte_at (r ++ replicate n 0xff)) {y = length r + (2 - length r)} (ground (arith, short))
        ∙ byte_at-middle r (replicate n 0xff) (2 - length r)
        ∙ ap u8 (get_or-replicate n (2 - length r) 0xff (ground (arith, short, long))) in
      ground (arith, last)
]
  where
    same :
        (i : ℕ)
        → i < length r
        → byte_at (r ++ replicate n 0xff) i ≡ byte_at (bytes ++ (r ++ rest)) (m + i)
    same i h =
        ap u8 (get_or-append r (replicate n 0xff) i 0 h ∙ sym (get_or-append r rest i 0 h))
        ∙ sym (byte_at-middle bytes (r ++ rest) i)
        ∙ ap (λ (k : ℕ). byte_at (bytes ++ (r ++ rest)) (k + i)) e
