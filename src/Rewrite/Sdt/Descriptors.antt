-- ===== src/Rewrite/Sdt/Descriptors.antt =====
-- The loop over the descriptors of a service (`sdt_channel_rewrite` of src/rewrite_sdt.c).
use mu_mu_dvb.Prelude.{◌||◌, ◌==◌, Bool, read_bytes, zero, suc, ap₂, length-append, inr}
use mu_mu_dvb.Prelude.{append-nil, inl, All, Bool-cases, append_assoc, ◌∙◌, sym, u8, ap, ◌+◌, ◌≤◌}
use mu_mu_dvb.Prelude.{ltb, length, ◌≡◌, if◌then◌else◌, ◌++◌, ◌<◌, ℕ, List, [], ◌∷◌, refl, arith}
use mu_mu_dvb.Prelude.{some, true, false}
use mu_mu_dvb.Rewrite.Bytes.{byte_at-middle, read-middle}
use mu_mu_dvb.Rewrite.Sdt.{byte_at, copy_descriptors, sdt_rewrite_copy_descriptor}

-- A descriptor, and its bytes.
pub record Descriptor : Type 0 where
  pub descriptor_tag : ℕ
  pub payload : List ℕ

abbrev pub descriptor_bytes : Descriptor → List ℕ
descriptor_bytes d = d.descriptor_tag ∷ length d.payload ∷ d.payload

abbrev pub loop_bytes : List Descriptor → List ℕ
loop_bytes [] = []
loop_bytes (d ∷ ds) = descriptor_bytes d ++ loop_bytes ds

-- The tags that are kept: bouquet name, service, component, mosaic, CA identifier, multilingual
-- service name, announcement support.
abbrev pub kept_tags : List ℕ
kept_tags = 0x47 ∷ 0x48 ∷ 0x50 ∷ 0x51 ∷ 0x53 ∷ 0x5d ∷ 0x6e ∷ []

abbrev pub is_one_of : List ℕ → ℕ → Bool
is_one_of [] tag = false
is_one_of (t ∷ ts) tag = tag == t || is_one_of ts tag

-- The descriptors that are kept.
abbrev pub kept : List Descriptor → List Descriptor
kept [] = []
kept (d ∷ ds) =
    let rest = kept ds in if is_one_of kept_tags d.descriptor_tag then d ∷ rest else rest

copy_descriptor_lem : (tag : ℕ) → is_one_of kept_tags tag ≡ sdt_rewrite_copy_descriptor tag
unfolding sdt_rewrite_copy_descriptor
copy_descriptor_lem tag = rw (or_false (tag == 0x6e)) refl
  where
    or_false : (b : Bool) → (b || false) ≡ b
    or_false true = refl
    or_false false = refl

-- A tag is a byte, and the length with the two bytes of the header is one too.
abbrev pub IsShort : Descriptor → Type 0
IsShort d = (d.descriptor_tag < 256) × (length d.payload ≤ 253)

-- One round of the loop.
copy_round :
    (fuel : ℕ) (bytes : List ℕ) (start size pos : ℕ) (copied : List ℕ) (tag n : ℕ)
    → pos < size
    → byte_at bytes (start + pos) ≡ tag
    → u8 (byte_at bytes (start + pos + 1) + 2) ≡ n
    → copy_descriptors (suc fuel) bytes start size pos copied
      ≡ copy_descriptors fuel bytes start size (pos + n) (
          if sdt_rewrite_copy_descriptor tag
          then copied ++ read_bytes n bytes (start + pos)
          else copied)
unfolding copy_descriptors
copy_round fuel bytes start size pos copied tag n within is_tag is_len =
    let more : ltb pos size ≡ true = ground arith in rw (more, is_tag, is_len) refl

copy_end :
    (fuel : ℕ) (bytes : List ℕ) (start size : ℕ) (copied : List ℕ)
    → copy_descriptors (suc fuel) bytes start size size copied ≡ some copied
unfolding copy_descriptors
copy_end fuel bytes start size copied =
    let done : ltb size size ≡ false = ground arith in rw done refl

-- The copies of some descriptors behind what was copied.
kept_step :
    (d : Descriptor) (ds : List Descriptor) (copied : List ℕ)
    → (if sdt_rewrite_copy_descriptor d.descriptor_tag
          then copied ++ descriptor_bytes d
          else copied)
        ++ loop_bytes (kept ds)
      ≡ copied ++ loop_bytes (kept (d ∷ ds))
kept_step d ds copied =
    let tag = copy_descriptor_lem d.descriptor_tag in
    elim (Bool-cases (sdt_rewrite_copy_descriptor d.descriptor_tag)) [
      | inl copy ↦
          rw (copy, tag ∙ copy) (append_assoc copied (descriptor_bytes d) (loop_bytes (kept ds)))
      | inr drop_it ↦ rw (drop_it, tag ∙ drop_it) refl
    ]

-- The bytes of a descriptor in the middle of the table, as the loop reads them.
descriptor_at :
    (pre post : List ℕ) (d : Descriptor)
    → IsShort d
    → let bytes = pre ++ (descriptor_bytes d ++ post) in
      (byte_at bytes (length pre) ≡ d.descriptor_tag)
      × (u8 (byte_at bytes (length pre + 1) + 2) ≡ length (descriptor_bytes d))
descriptor_at pre post d short =
    let bytes = pre ++ (descriptor_bytes d ++ post) in
    let tag : byte_at bytes (length pre) ≡ d.descriptor_tag =
      ap (byte_at bytes) {y = length pre + 0} (omega arith)
      ∙ byte_at-middle pre (descriptor_bytes d ++ post) 0
      ∙ small (d.descriptor_tag) short.0 in
    let size = byte_at-middle pre (descriptor_bytes d ++ post) 1 in
    (tag, omega (arith, size, short.1))
  where
    small : (n : ℕ) → n < 256 → u8 n ≡ n
    small n h = omega arith

copy_rest :
    (ds : List Descriptor) (fuel : ℕ) (front done post copied : List ℕ)
    → All IsShort ds
    → length (loop_bytes ds) < fuel
    → copy_descriptors fuel
        (front ++ (done ++ (loop_bytes ds ++ post)))
        (length front)
        (length done + length (loop_bytes ds))
        (length done)
        copied
      ≡ some (copied ++ loop_bytes (kept ds))
copy_rest ds zero front done post copied short enough = absurd (omega arith)
copy_rest [] (suc fuel) front done post copied short enough =
    ap
      (λ (n : ℕ).
        copy_descriptors (suc fuel) (front ++ (done ++ post)) (length front) n (length done) copied)
      {y = length done} (omega arith)
    ∙ copy_end fuel (front ++ (done ++ post)) (length front) (length done) copied
    ∙ ap some (sym (append-nil copied))
copy_rest (d ∷ ds) (suc fuel) front done post copied short enough =
    let pre = front ++ done in
    let own = descriptor_bytes d in
    let rest = loop_bytes ds ++ post in
    let bytes = front ++ (done ++ ((own ++ loop_bytes ds) ++ post)) in
    let size : length (own ++ loop_bytes ds) ≡ length own + length (loop_bytes ds) =
      length-append own (loop_bytes ds) in
    let n : length pre ≡ length front + length done = length-append front done in
    let split : bytes ≡ pre ++ (own ++ rest) =
      ap (λ (b : List ℕ). front ++ (done ++ b)) (append_assoc own (loop_bytes ds) post)
      ∙ sym (append_assoc front done (own ++ rest)) in
    let moved : bytes ≡ front ++ ((done ++ own) ++ (loop_bytes ds ++ post)) =
      ap (λ (b : List ℕ). front ++ (done ++ b)) (append_assoc own (loop_bytes ds) post)
      ∙ ap (λ (b : List ℕ). front ++ b) (sym (append_assoc done own rest)) in
    let fields = descriptor_at pre rest d short.0 in
    let tag : byte_at bytes (length front + length done) ≡ d.descriptor_tag =
      ap₂ byte_at split (sym n) ∙ fields.0 in
    let len : u8 (byte_at bytes (length front + length done + 1) + 2) ≡ length own =
      ap₂ (λ (b : List ℕ) (k : ℕ). u8 (byte_at b (k + 1) + 2)) split (sym n) ∙ fields.1 in
    let copy : read_bytes (length own) bytes (length front + length done) ≡ own =
      ap₂ (read_bytes (length own)) split (sym n) ∙ read-middle pre own rest in
    let now = if sdt_rewrite_copy_descriptor d.descriptor_tag then copied ++ own else copied in
    let further : length (done ++ own) ≡ length done + length own = length-append done own in
    let total : length done + length (own ++ loop_bytes ds)
        ≡ length (done ++ own) + length (loop_bytes ds) =
      omega (arith, size, further) in
    copy_round fuel bytes (length front) (length done + length (own ++ loop_bytes ds)) (length done)
      copied d.descriptor_tag (length own) (omega (arith, size)) tag len
    ∙ ap
        (λ (c : List ℕ).
          copy_descriptors fuel bytes (length front) (length done + length (own ++ loop_bytes ds))
            (length done + length own)
            (if sdt_rewrite_copy_descriptor d.descriptor_tag then copied ++ c else copied))
        copy
    ∙ ap₂
        (λ (b : List ℕ) (k : ℕ).
          copy_descriptors fuel b (length front) k (length done + length own) now)
        moved total
    ∙ ap
        (λ (k : ℕ).
          copy_descriptors fuel (front ++ ((done ++ own) ++ (loop_bytes ds ++ post))) (length front)
            (length (done ++ own) + length (loop_bytes ds)) k now)
        (sym further)
    ∙ copy_rest ds fuel front (done ++ own) post now short.1 (omega (arith, size))
    ∙ ap some (kept_step d ds copied)

-- Of the descriptors of a service, each with a payload of at most 253 bytes, the loop copies those
-- with one of the tags 0x47, 0x48, 0x50, 0x51, 0x53, 0x5d and 0x6e, whole and in order; the fuel that the search for a service
-- gives it is enough.
pub copy_descriptors_lem :
    (ds : List Descriptor) (front post : List ℕ)
    → All IsShort ds
    → let size = length (loop_bytes ds) in
      copy_descriptors (size + 1) (front ++ (loop_bytes ds ++ post)) (length front) size 0 []
      ≡ some (loop_bytes (kept ds))
copy_descriptors_lem ds front post short =
    let size = length (loop_bytes ds) in
    ap
      (λ (n : ℕ).
        copy_descriptors (size + 1) (front ++ (loop_bytes ds ++ post)) (length front) n 0 [])
      {y = 0 + size} (omega arith)
    ∙ copy_rest ds (size + 1) front [] post [] short (omega arith)
