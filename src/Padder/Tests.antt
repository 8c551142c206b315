-- ===== src/Padder/Tests.antt =====
-- Messages padded to small blocks.
use secure_orchestration_mes.Prelude.{ℕ, zero, suc, ◌≡◌, refl, some, [], ◌∷◌, arith, length, ap}
use secure_orchestration_mes.Messages.{Bytes}
use secure_orchestration_mes.Crypto.{big_endian}
use secure_orchestration_mes.Padder.{pad, unpad}
use secure_orchestration_mes.Padder.RoundTrip.{unpad-pad}

abbrev zeros : ℕ → Bytes
zeros zero = []
zeros (suc n) = 0 ∷ zeros n

length-zeros : (n : ℕ) → length (zeros n) ≡ n
length-zeros zero = refl
length-zeros (suc n) = ap suc (length-zeros n)

pad_short : pad zeros 4 (9 ∷ []) ≡ some (0 ∷ 1 ∷ 9 ∷ 0 ∷ [])
unfolding pad big_endian
pad_short = refl

pad_next_block : pad zeros 4 (9 ∷ 9 ∷ 9 ∷ []) ≡ some (0 ∷ 3 ∷ 9 ∷ 9 ∷ 9 ∷ 0 ∷ 0 ∷ 0 ∷ [])
unfolding pad big_endian
pad_next_block = refl

pad_empty : pad zeros 4 [] ≡ some (0 ∷ 0 ∷ 0 ∷ 0 ∷ [])
unfolding pad big_endian
pad_empty = refl

unpad-pad_example : (p : Bytes) × (pad zeros 4 (9 ∷ []) ≡ some p) × (unpad p ≡ some (9 ∷ []))
unpad-pad_example = unpad-pad zeros 4 (9 ∷ []) (omega arith) (omega arith)

long_message : ℕ → Bytes
long_message n = zeros n

length-long_message : (n : ℕ) → length (long_message n) ≡ n
unfolding long_message
length-long_message n = length-zeros n
