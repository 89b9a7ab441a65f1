-- ===== src/T2mi/Gather.antt =====
-- How `processt2` (src/t2mi.c) gathers a T2-MI packet.
use mu_mu_dvb.T2mi.{take_t2_start, ts_packet_size, byte_at, payload_start_offset, Output, T2mi}
use mu_mu_dvb.T2mi.{take_t2_next, take_t2, processt2, append_t2packet}
use mu_mu_dvb.Prelude.{if◌then◌else◌, subst, length-read_bytes, sym, ◌==◌, ◌%◌, ap₂, ◌∙◌, ◌/◌}
use mu_mu_dvb.Prelude.{length, ◌-◌, ◌+◌, All, length-append, ap, ◌++◌, memcpy, ◌≡◌, read_bytes, ℕ}
use mu_mu_dvb.Prelude.{zero, suc, List, [], ◌∷◌, none, some, true, false, Bool, Option, refl}
use mu_mu_dvb.Prelude.{arith}

-- What a packet carries, by where its payload begins.
abbrev pub payload_from : Option ℕ → List ℕ → List ℕ
payload_from none packet = []
payload_from (some start) packet = read_bytes (ts_packet_size - 4 - start) packet (0 + 4 + start)

abbrev pub payloads : List (List ℕ) → List ℕ
payloads [] = []
payloads (packet ∷ packets) =
    payload_from (payload_start_offset packet 0) packet ++ payloads packets

-- `processt2` on one packet after the other, with the output of each at the same place.
abbrev pub process_all : ℕ → List (List ℕ) → T2mi × Output → T2mi × Output
process_all plp_id [] z = z
process_all plp_id (packet ∷ packets) z =
    process_all plp_id packets (processt2 plp_id packet 0 z.0 z.1)

memcpy-nil : (dst : List ℕ) (i : ℕ) → memcpy dst i [] ≡ dst
memcpy-nil [] i = refl
memcpy-nil (x ∷ dst) zero = refl
memcpy-nil (x ∷ dst) (suc i) = ap (λ (l : List ℕ). x ∷ l) (memcpy-nil dst i)

pub memcpy-behind :
    (dst : List ℕ) (i : ℕ) (a b : List ℕ)
    → memcpy (memcpy dst i a) (i + length a) b ≡ memcpy dst i (a ++ b)
memcpy-behind [] i a b = refl
memcpy-behind (x ∷ dst) (suc i) a b =
    ap (λ (n : ℕ). memcpy (x ∷ memcpy dst i a) n b) {x = suc i + length a} {y = suc (i + length a)}
      (omega arith)
    ∙ ap (λ (l : List ℕ). x ∷ l) (memcpy-behind dst i a b)
memcpy-behind (x ∷ dst) zero [] b = refl
memcpy-behind (x ∷ dst) zero (y ∷ a) b =
    ap (λ (n : ℕ). memcpy (y ∷ memcpy dst zero a) n b) {x = zero + length (y ∷ a)}
      {y = suc (zero + length a)} (omega arith)
    ∙ ap (λ (l : List ℕ). y ∷ l) (memcpy-behind dst zero a b)

-- What one packet appends.
pub record Gathered (bytes : List ℕ) (t t' : T2mi) : Type 0 where
  pub active : t'.t2mi_active ≡ true
  pub position : t'.t2packetpos ≡ t.t2packetpos + length bytes
  pub gathered : t'.t2packet ≡ memcpy t.t2packet t.t2packetpos bytes

Gathered-next :
    (start : Option ℕ) (plp_id : ℕ) (packet : List ℕ) (t : T2mi) (out : Output)
    → t.t2mi_active ≡ true
    → (byte_at packet (0 + 1) / 64 % 2 == 1) ≡ false
    → Gathered (payload_from start packet) t (take_t2 start plp_id packet 0 t out).0
unfolding take_t2 take_t2_next append_t2packet
Gathered-next none plp_id packet t out active more = record {
  active = active;
  position = omega arith;
  gathered = sym (memcpy-nil t.t2packet t.t2packetpos);
}
Gathered-next (some start) plp_id packet t out active more =
    let n = ts_packet_size - 4 - start in
    let bytes = read_bytes n packet (0 + 4 + start) in
    let longer : T2mi = record t {
      t2packet = memcpy t.t2packet t.t2packetpos bytes;
      t2packetpos = t.t2packetpos + n;
    } in
    let taken : Gathered bytes t longer = record {
      active = active;
      position =
          ap (λ (m : ℕ). t.t2packetpos + m) (sym (length-read_bytes n packet (0 + 4 + start)));
      gathered = refl;
    } in
    subst
      (λ (b : Bool).
        Gathered bytes t
          (if b
            then take_t2_start plp_id packet (0 + 4 + start) n t out
            else (take_t2_next packet (0 + 4 + start) n t, out)).0)
      (sym more)
      (subst (λ (b : Bool). Gathered bytes t (if b then longer else t)) (sym active) taken)

Gathered-trans :
    (a b : List ℕ) (t t' t'' : T2mi) → Gathered a t t' → Gathered b t' t'' → Gathered (a ++ b) t t''
Gathered-trans a b t t' t'' g h = record {
  active = h.active;
  position = omega (arith, h.position, g.position, length-append a b);
  gathered =
      h.gathered
      ∙ ap₂ (λ (l : List ℕ) (i : ℕ). memcpy l i b) g.gathered g.position
      ∙ memcpy-behind t.t2packet t.t2packetpos a b;
}

-- While a T2-MI packet is gathered, the payloads of packets that begin no other one, any number of
-- them, are written one behind the other into the array, as far as it goes, and the position goes on
-- by their length, with no bound.
pub process_all-Gathered :
    (plp_id : ℕ) (packets : List (List ℕ)) (t : T2mi) (out : Output)
    → t.t2mi_active ≡ true
    → All (λ (packet : List ℕ). (byte_at packet (0 + 1) / 64 % 2 == 1) ≡ false) packets
    → Gathered (payloads packets) t (process_all plp_id packets (t, out)).0
unfolding processt2
process_all-Gathered plp_id [] t out active more = record {
  active = active;
  position = omega arith;
  gathered = sym (memcpy-nil t.t2packet t.t2packetpos);
}
process_all-Gathered plp_id (packet ∷ packets) t out active more =
    let start = payload_start_offset packet 0 in
    let z = processt2 plp_id packet 0 t out in
    let first =
      Gathered-next start plp_id packet t (record out { output_bytes = 0 }) active more.0 in
    Gathered-trans (payload_from start packet) (payloads packets) t z.0
      (process_all plp_id packets z).0 first
      (process_all-Gathered plp_id packets z.0 z.1 first.active more.1)
