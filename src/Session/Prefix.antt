-- ===== src/Session/Prefix.antt =====
-- Whether one file is a byte prefix of another (internal/session/prefix.go, `IsPrefix`), over what
-- the files hold; opening, sizes and reads do not fail here, and the files do not change meanwhile.
pub mod Bytewise
use go_claude_teleport.Base.{
  ℕ, zero, suc, Bool, true, false, not, [], Bytes, bytes_eq, length, take, drop, ltb, ◌==◌,
  if◌then◌else◌,
}

-- The answer, an incoming file that ends early, or no fuel left.
pub data PrefixAnswer : Type 0 where
  is_prefix_or_not : Bool → PrefixAnswer
  ends_early : PrefixAnswer
  out_of_fuel : PrefixAnswer

-- What a round does with the chunks that it read: a short chunk is the existing file's last one.
abbrev pub compare_chunks : ℕ → Bytes → Bytes → PrefixAnswer → PrefixAnswer
compare_chunks size mine other next =
    if length mine == 0
    then is_prefix_or_not true
    else if ltb (length other) (length mine)
    then ends_early
    else if not (bytes_eq mine other)
    then is_prefix_or_not false
    else if ltb (length mine) size
    then is_prefix_or_not true
    else next

-- The loop over chunks of a size; the second file is read as far as the first one's chunk is long.
unfoldable pub prefix_loop : ℕ → ℕ → Bytes → Bytes → PrefixAnswer
unfolding bytes_eq
prefix_loop size zero existing incoming = out_of_fuel
prefix_loop size (suc fuel) existing incoming =
    let n = length (take size existing) in
    compare_chunks size (take size existing) (take n incoming)
      (prefix_loop size fuel (drop size existing) (drop n incoming))

-- `64*1024`.
abbrev pub chunk_size : ℕ
chunk_size = 65536

-- `IsPrefix`.
unfoldable pub is_prefix : Bytes → Bytes → PrefixAnswer
unfolding prefix_loop
is_prefix existing incoming =
    if ltb (length incoming) (length existing)
    then is_prefix_or_not false
    else prefix_loop chunk_size (suc (length existing)) existing incoming
