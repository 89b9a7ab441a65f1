-- ===== src/Examples/Section.antt =====
-- A PAT with one programme, the packet that carries it, and a packet with no table data.
use mu_mu_dvb.Prelude.{ℕ, List, [], ◌∷◌, ◌++◌, replicate}

abbrev pub pat_body : List ℕ
pat_body = 0x00 ∷ 0xb0 ∷ 0x0d ∷ 0x00 ∷ 0x01 ∷ 0xc1 ∷ 0x00 ∷ 0x00 ∷ 0x00 ∷ 0x01 ∷ 0xe1 ∷ 0x00 ∷ []

abbrev pub pat_section : List ℕ
pat_section = pat_body ++ (0xe8 ∷ 0xf9 ∷ 0x5e ∷ 0x7d ∷ [])

-- Header, pointer field, section, stuffing.
abbrev pub pat_packet : List ℕ
pat_packet = (0x47 ∷ 0x40 ∷ 0x00 ∷ 0x10 ∷ 0x00 ∷ []) ++ (pat_section ++ replicate 167 0xff)

-- The start of a PES packet.
abbrev pub pes_packet : List ℕ
pes_packet = (0x47 ∷ 0x41 ∷ 0x00 ∷ 0x10 ∷ 0x00 ∷ 0x00 ∷ 0x01 ∷ 0xe0 ∷ []) ++ replicate 180 0x00
