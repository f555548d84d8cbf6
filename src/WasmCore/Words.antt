-- ===== src/WasmCore/Words.antt =====
-- The checksum and the bytes of a message's header in src/umsbb_wasm_core.c.
use Prim.Native.Nat.{bit_or, bit_xor}
use universal_multi_segmente.Prelude.{ℕ, ◌*◌, ◌/◌, ◌%◌, ◌^◌, List, [], ◌∷◌, ◌++◌, length}
use universal_multi_segmente.Standalone.Bytes.{to_bytes, from_bytes, take, drop}
use universal_multi_segmente.WasmCore.{MessageHeader}

-- The checksum is turned left by one bit before the next byte is mixed in.
unfoldable pub mix : ℕ → ℕ → ℕ
mix checksum b = bit_xor (bit_or ((checksum * 2) % 2 ^ 32) (checksum / 2 ^ 31)) b

-- The loop of `calculate_checksum`, with `checksum`.
unfoldable pub checksum_from : ℕ → List ℕ → ℕ
checksum_from checksum [] = checksum
checksum_from checksum (b ∷ bs) = checksum_from (mix checksum b) bs

unfoldable pub calculate_checksum : List ℕ → ℕ
calculate_checksum bs = checksum_from 0x5a5a5a5a bs

-- The 16 bytes of a packed header, the lowest byte of each field first.
unfoldable pub encode : MessageHeader → List ℕ
unfolding to_bytes
encode h = to_bytes 4 h.size ++ to_bytes 4 h.checksum ++ to_bytes 8 h.timestamp

unfoldable pub decode : List ℕ → MessageHeader
decode bs = record {
  size = from_bytes (take bs 4);
  checksum = from_bytes (take (drop bs 4) 4);
  timestamp = from_bytes (take (drop bs 8) 8);
}

unfoldable pub message_header : ℕ → List ℕ → MessageHeader
message_header time message = record {
  size = length message;
  checksum = calculate_checksum message;
  timestamp = time;
}
