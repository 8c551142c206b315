-- ===== src/Padder.antt =====
-- agent_sdk/side_channel.py: `SideChannelPadder`. `none` is a raised exception, and os.urandom is a
-- parameter.
mod RoundTrip
mod Tests
use secure_orchestration_mes.Prelude.{
  ℕ, ◌+◌, ◌-◌, ◌*◌, ◌/◌, ◌≡◌, Bool, Option, none, some, List, [], ◌∷◌, ◌++◌, ltb, leb, ◌==◌,
  if◌then◌else◌, length, take, drop,
}
use secure_orchestration_mes.Messages.{Bytes}
use secure_orchestration_mes.Crypto.{big_endian}

abbrev pub default_block_size : ℕ
default_block_size = 4096

-- The length that a padded message of `size` bytes gets.
unfoldable pub target_length : (block_size size : ℕ) → ℕ
target_length block_size size =
    let target = if leb block_size size then (size / block_size + 1) * block_size else block_size in
    if ltb target (size + 2) then target + block_size else target

-- A block size of 0 divides by zero; struct.pack("!H", size) raises for more than 16 bits.
unfoldable pub pad : (urandom : ℕ → Bytes) (block_size : ℕ) → Bytes → Option Bytes
unfolding target_length
pad urandom block_size message =
    let size = length message in
    if block_size == 0
    then none
    else if ltb size 65536
    then some (big_endian 2 size ++ (message ++ urandom (target_length block_size size - size - 2)))
    else none

unfoldable pub unpad : Bytes → Option Bytes
unpad (high ∷ low ∷ rest) =
    let original_length = high * 256 + low in
    if ltb (length rest) original_length then none else some (take original_length rest)
unpad _ = none
