-- ===== src/Rewrite/Bytes.antt =====
-- Bytes in the middle of a table (src/rewrite_sdt.c and src/rewrite_eit.c).
use mu_mu_dvb.Prelude.{take_all, take-append, append_assoc, get_or-drop, ◌∙◌, sym, take, u8, ap}
use mu_mu_dvb.Prelude.{replicate, ◌≡◌, ◌+◌, get_or, length, ◌++◌, read_bytes, ◌<◌, ℕ, zero, suc}
use mu_mu_dvb.Prelude.{List, refl, arith}
use mu_mu_dvb.Ts.Store.{drop-length}
use mu_mu_dvb.Crc.Calc.{byte_at}

pub read-middle :
    (pre x post : List ℕ) → read_bytes (length x) (pre ++ (x ++ post)) (length pre) ≡ x
read-middle pre x post =
    let pad : List ℕ = replicate (length x) 0 in
    ap (λ (b : List ℕ). take (length x) (b ++ pad)) (drop-length pre (x ++ post))
    ∙ ap (take (length x)) (append_assoc x post pad)
    ∙ take-append (length x) x (post ++ pad) (omega arith)
    ∙ take_all (length x) x (omega arith)

pub byte_at-middle : (pre x : List ℕ) (i : ℕ) → byte_at (pre ++ x) (length pre + i) ≡ byte_at x i
byte_at-middle pre x i = ap u8 (
    sym (get_or-drop (length pre) i (pre ++ x) 0)
    ∙ ap (λ (b : List ℕ). get_or b i 0) (drop-length pre x))

pub get_or-replicate : (n i v : ℕ) → i < n → get_or (replicate n v) i 0 ≡ v
get_or-replicate zero i v h = absurd (omega arith)
get_or-replicate (suc n) zero v h = refl
get_or-replicate (suc n) (suc i) v h = get_or-replicate n i v (omega arith)
