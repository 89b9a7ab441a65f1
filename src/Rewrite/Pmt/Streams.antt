-- ===== src/Rewrite/Pmt/Streams.antt =====
-- The streams that `pmt_channel_rewrite` (src/rewrite_pmt.c) keeps fit in a packet.
use mu_mu_dvb.Prelude.{get_or-append, u8, length-take, ◌-◌, leb, ltb, drop, append_assoc, take}
use mu_mu_dvb.Prelude.{length-append, ap, ◌⊎◌, Bool-cases, ◌==◌, append-nil, ◌∙◌, ◌+◌, ◌≡◌}
use mu_mu_dvb.Prelude.{if◌then◌else◌, ◌++◌, ◌≤◌, length, sym, ◌<◌, ℕ, zero, suc, List, [], ◌∷◌}
use mu_mu_dvb.Prelude.{refl, arith, inl, inr}
use mu_mu_dvb.Rewrite.Pmt.{ts_packet_size, word13, word12, ts_header_len, byte_at, copy_stream}
use mu_mu_dvb.Rewrite.Pmt.{copy_streams}

-- How often a PID stands in a list.
abbrev pub times : ℕ → List ℕ → ℕ
times p [] = 0
times p (q ∷ qs) = if p == q then suc (times p qs) else times p qs

abbrev pub IsDistinct : List ℕ → Type 0
IsDistinct pids = (p : ℕ) → times p pids ≤ 1

-- The bytes that were written stay, and others come behind them.
pub record Extends (dest r : List ℕ) : Type 0 where
  pub more : List ℕ
  pub whole : r ≡ dest ++ more

Extends-same : (dest : List ℕ) → Extends dest dest
Extends-same dest = record { more = []; whole = sym (append-nil dest) }

Extends-trans : (a b c : List ℕ) → Extends a b → Extends b c → Extends a c
Extends-trans a b c x y = record {
  more = x.more ++ y.more;
  whole = y.whole ∙ ap (λ (l : List ℕ). l ++ y.more) x.whole ∙ append_assoc a x.more y.more;
}

pub byte_at-Extends :
    (dest r : List ℕ) (i : ℕ) → Extends dest r → i < length dest → byte_at r i ≡ byte_at dest i
byte_at-Extends dest r i x h =
    ap (λ (b : List ℕ). byte_at b i) x.whole ∙ ap u8 (get_or-append dest x.more i 0 h)

copy_stream-none :
    (pids : List ℕ) (elem_pid : ℕ) (stream dest : List ℕ)
    → times elem_pid pids ≡ 0
    → copy_stream pids elem_pid stream dest ≡ dest
unfolding copy_stream
copy_stream-none [] elem_pid stream dest none_there = refl
copy_stream-none (q ∷ qs) elem_pid stream dest none_there = elim (Bool-cases (elem_pid == q)) [
  | inl same ↦ absurd (ground (arith, rw same at none_there))
  | inr other ↦ rw other (copy_stream-none qs elem_pid stream dest (rw other at none_there))
]

-- A stream is copied once or not at all.
copy_stream_once :
    (pids : List ℕ) (elem_pid : ℕ) (stream dest : List ℕ)
    → times elem_pid pids ≤ 1
    → (copy_stream pids elem_pid stream dest ≡ dest)
      ⊎ (copy_stream pids elem_pid stream dest ≡ dest ++ stream)
unfolding copy_stream
copy_stream_once [] elem_pid stream dest once = inl refl
copy_stream_once (q ∷ qs) elem_pid stream dest once = elim (Bool-cases (elem_pid == q)) [
  | inl same ↦
      rw same (
        inr
          (copy_stream-none qs elem_pid stream (dest ++ stream) (ground (arith, rw same at once))))
  | inr other ↦ rw other (copy_stream_once qs elem_pid stream dest (rw other at once))
]

-- What the loop over the streams makes of the bytes before it.
pub record IsCopied (dest r : List ℕ) : Type 0 where
  pub extends : Extends dest r
  pub fits : length r ≤ 183

module _ (pids : List ℕ) (distinct : IsDistinct pids) where
  copy_stream-IsCopied :
      (elem_pid size : ℕ) (stream dest : List ℕ)
      → length stream ≤ size
      → length dest + size ≤ 183
      → IsCopied dest (copy_stream pids elem_pid stream dest)
  copy_stream-IsCopied elem_pid size stream dest short fits =
      elim (copy_stream_once pids elem_pid stream dest (distinct elem_pid)) [
        | inl out ↦ rw out (record { extends = Extends-same dest; fits = omega arith })
        | inr kept ↦ rw kept (record {
          extends = record { more = stream; whole = refl };
          fits = omega (arith, length-append dest stream);
        })
      ]

  pub copy_streams-IsCopied :
      (fuel es_len i : ℕ) (pmt dest : List ℕ)
      → length dest ≤ 183
      → IsCopied dest (copy_streams fuel pids pmt es_len i dest)
  unfolding copy_streams
  copy_streams-IsCopied zero es_len i pmt dest fits = record {
    extends = Extends-same dest;
    fits = fits;
  }
  copy_streams-IsCopied (suc fuel) es_len i pmt dest fits =
      let at = ts_header_len + 12 + i in
      let size = 5 + word12 pmt (at + 3) in
      let stream = take size (drop at pmt) in
      let copied = copy_stream pids (word13 pmt (at + 1)) stream dest in
      elim (Bool-cases (ltb i es_len)) [
        | inl left ↦ elim (Bool-cases (leb (ts_packet_size - 4) (length dest + size))) [
          | inl full ↦ rw (left, full) (record { extends = Extends-same dest; fits = fits })
          | inr space ↦
              let first =
                copy_stream-IsCopied (word13 pmt (at + 1)) size stream dest
                  (omega (arith, length-take size (drop at pmt))) (ground (arith, space)) in
              let rest = copy_streams-IsCopied fuel es_len (i + size) pmt copied first.fits in
              rw (left, space)
                (record {
                  extends =
                      Extends-trans dest copied
                        (copy_streams fuel pids pmt es_len (i + size) copied) first.extends
                        rest.extends;
                  fits = rest.fits;
                })
        ]
        | inr done ↦ rw done (record { extends = Extends-same dest; fits = fits })
      ]
