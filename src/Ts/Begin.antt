-- ===== src/Ts/Begin.antt =====
-- `get_ts_begin` of src/ts.c: where the first section of a packet begins.
use mu_mu_dvb.Prelude.{◌⊎◌, ◌<◌, ◌||◌, ltb, bit_and, ◌≤◌, ◌&&◌, ◌+◌, if◌then◌else◌, not, ◌==◌}
use mu_mu_dvb.Prelude.{◌≡◌, Bool, Option, ℕ, List, none, some, inl, inr, arith}
use mu_mu_dvb.Channel.Buffer.{ts_packet_size}
use mu_mu_dvb.Ts.Header.{payload_unit_start_indicator, adaptation_field_control}
use mu_mu_dvb.Crc.Calc.{byte_at}
use mu_mu_dvb.Ts.Get.{payload_offset}

-- The packet's payload behind `delta`; a byte behind the packet, which the source reads all the
-- same, is 0 here.
unfoldable pub begin_of_payload : List ℕ → ℕ → Option ℕ
begin_of_payload buf delta =
    let pointer_field = byte_at buf delta in
    if payload_unit_start_indicator buf == 0
    then none
    else if ltb ts_packet_size (delta + 1 + pointer_field)
    then none
    else some (delta + 1 + pointer_field)

unfoldable pub is_pes : List ℕ → ℕ → Bool
is_pes buf delta =
    byte_at buf delta == 0 && (byte_at buf (delta + 1) == 0 && byte_at buf (delta + 2) == 1)

-- The offset of the section; `none` is NULL.
unfoldable pub get_ts_begin : List ℕ → Option ℕ
unfolding begin_of_payload is_pes
get_ts_begin buf =
    let control = adaptation_field_control buf in
    let has_field = not (bit_and control 0x2 == 0) in
    let delta = if has_field then 4 + byte_at buf 4 + 1 else 4 in
    if has_field && ltb ts_packet_size (4 + byte_at buf 4)
    then none
    else if not (bit_and control 0x1 == 0) && is_pes buf delta
    then none
    else if control == 2 || control == 0
    then none
    else begin_of_payload buf delta

begin_of_payload_lem :
    (buf : List ℕ) (delta d : ℕ)
    → begin_of_payload buf delta ≡ some d
    → (d ≡ delta + 1 + byte_at buf delta) × (d ≤ ts_packet_size)
unfolding begin_of_payload
begin_of_payload_lem buf delta d e = ground (arith, e)

-- The adaptation field is two bits.
control_cases : (c : ℕ) → c < 4 → (c ≡ 0) ⊎ ((c ≡ 1) ⊎ ((c ≡ 2) ⊎ (c ≡ 3)))
control_cases c h = ground arith

-- Where a section begins for `get_ts_begin`, it begins for `get_ts_packet`: that one finds a payload,
-- and the pointer field at its start leads to the same byte, which is at most the one behind the
-- packet.
pub get_ts_begin_lem :
    (buf : List ℕ) (d : ℕ)
    → get_ts_begin buf ≡ some d
    → (o : ℕ) × (payload_offset buf ≡ some o) × (d ≡ o + 1 + byte_at buf o) × (d ≤ ts_packet_size)
unfolding get_ts_begin begin_of_payload is_pes payload_offset adaptation_field_control
get_ts_begin_lem buf d e =
    let c = adaptation_field_control buf in
    elim (control_cases c (omega arith)) [
      | inl none_there ↦ absurd (ground (arith, rw none_there at e))
      | inr (inl payload) ↦ (
        4,
        rw payload (ground (arith, rw payload at e)),
        ground (arith, rw payload at e),
        ground (arith, rw payload at e),
      )
      | inr (inr (inl field)) ↦ absurd (ground (arith, rw field at e))
      | inr (inr (inr both)) ↦ (
        4 + byte_at buf 4 + 1,
        rw both (ground (arith, rw both at e)),
        ground (arith, rw both at e),
        ground (arith, rw both at e),
      )
    ]
