-- ===== src/Padder/RoundTrip.antt =====
-- What padding hides and what unpadding gives back.
use secure_orchestration_mes.Prelude.{
  ℕ, ◌+◌, ◌-◌, ◌*◌, ◌/◌, ◌%◌, ◌≤◌, ◌<◌, ◌≡◌, refl, inl, inr, none, some, ◌∷◌, ◌++◌, arith, ltb, leb,
  if◌then◌else◌, length, length-append, take-append, Bool-cases, ◌∙◌,
}
use native.Mathlib.Nat.{mod-lt, div-add-mod}
use secure_orchestration_mes.Messages.{Bytes}
use secure_orchestration_mes.Crypto.{big_endian}
use secure_orchestration_mes.Padder.{target_length, pad, unpad}

padded : (ℕ → Bytes) → ℕ → Bytes → Bytes
padded urandom block_size message =
    ((length message / 256) % 256)
    ∷ (length message % 256)
    ∷ (message ++ urandom (target_length block_size (length message) - length message - 2))

pad-eq-padded :
    (urandom : ℕ → Bytes) (block_size : ℕ) (message : Bytes)
    → 0 < block_size
    → length message < 65536
    → pad urandom block_size message ≡ some (padded urandom block_size message)
unfolding pad padded big_endian
pad-eq-padded urandom block_size message pos fits = ground arith

unpad-padded :
    (urandom : ℕ → Bytes) (block_size : ℕ) (message : Bytes)
    → length message < 65536
    → unpad (padded urandom block_size message) ≡ some message
unfolding unpad padded
unpad-padded urandom block_size message fits =
    let noise = urandom (target_length block_size (length message) - length message - 2) in
    let size : ((length message / 256) % 256) * 256 + length message % 256 ≡ length message =
      omega arith in
    rw (size, take-append message noise) (ground (arith, length-append message noise))

-- Unpadding inverts padding, for every block size but 0, every message of at most 65535 bytes and
-- whatever the random bytes are.
pub unpad-pad :
    (urandom : ℕ → Bytes) (block_size : ℕ) (message : Bytes)
    → 0 < block_size
    → length message < 65536
    → (p : Bytes) × (pad urandom block_size message ≡ some p) × (unpad p ≡ some message)
unpad-pad urandom block_size message pos fits = (
  padded urandom block_size message,
  pad-eq-padded urandom block_size message pos fits,
  unpad-padded urandom block_size message fits,
)

one_more_block :
    (n k size target : ℕ)
    → target ≡ k * n
    → (k' : ℕ) × ((if ltb target (size + 2) then target + n else target) ≡ k' * n)
one_more_block n k size target whole = elim (Bool-cases (ltb target (size + 2))) [
  | inl small ↦ (k + 1, rw small (omega arith))
  | inr large ↦ (k, rw large whole)
]

target_length-blocks : (n size : ℕ) → (k : ℕ) × (target_length n size ≡ k * n)
unfolding target_length
target_length-blocks n size = elim (Bool-cases (leb n size)) [
  | inl long ↦ rw long (one_more_block n (size / n + 1) size ((size / n + 1) * n) refl)
  | inr short ↦ rw short (one_more_block n 1 size n (omega arith))
]

le-target_length : (n size : ℕ) → 0 < n → size + 2 ≤ target_length n size
unfolding target_length
le-target_length n size pos = ground (arith, mod-lt size pos, div-add-mod size n)

target_length_short : (n size : ℕ) → size + 2 ≤ n → target_length n size ≡ n
unfolding target_length
target_length_short n size short = ground arith

-- The length of a padded message is the target, if os.urandom returns what it is asked for.
length_target :
    (urandom : ℕ → Bytes) (n : ℕ) (message p : Bytes)
    → ((k : ℕ) → length (urandom k) ≡ k)
    → 0 < n
    → pad urandom n message ≡ some p
    → length p ≡ target_length n (length message)
unfolding pad big_endian
length_target urandom n message p noise pos e =
    let extra = target_length n (length message) - length message - 2 in
    ground (
      arith,
      length-append message (urandom extra),
      noise extra,
      le-target_length n (length message) pos,
    )

-- A padded message is a whole number of blocks long, and leaves two bytes for the length, where
-- os.urandom returns as many bytes as it is asked for.
pub length-pad :
    (urandom : ℕ → Bytes) (block_size : ℕ) (message p : Bytes)
    → ((k : ℕ) → length (urandom k) ≡ k)
    → 0 < block_size
    → pad urandom block_size message ≡ some p
    → ((k : ℕ) × (length p ≡ k * block_size)) × (length message + 2 ≤ length p)
length-pad urandom n message p noise pos e =
    let long = length_target urandom n message p noise pos e in
    let (k, whole) = target_length-blocks n (length message) in
    ((k, long ∙ whole), omega (arith, long, le-target_length n (length message) pos))

-- Two messages that are at least two bytes shorter than a block have padded forms of one length.
pub pad_hides_length :
    (urandom : ℕ → Bytes) (block_size : ℕ) (m m' p p' : Bytes)
    → ((k : ℕ) → length (urandom k) ≡ k)
    → length m + 2 ≤ block_size
    → length m' + 2 ≤ block_size
    → pad urandom block_size m ≡ some p
    → pad urandom block_size m' ≡ some p'
    → length p ≡ length p'
pad_hides_length urandom n m m' p p' noise short short' e e' = omega (
  arith,
  length_target urandom n m p noise (omega arith) e,
  length_target urandom n m' p' noise (omega arith) e',
  target_length_short n (length m) short,
  target_length_short n (length m') short',
)

-- A message of 65536 bytes or more cannot be padded, whatever the block size.
pub pad_too_long :
    (urandom : ℕ → Bytes) (block_size : ℕ) (message : Bytes)
    → 65536 ≤ length message
    → pad urandom block_size message ≡ none
unfolding pad
pad_too_long urandom block_size message long = ground arith
