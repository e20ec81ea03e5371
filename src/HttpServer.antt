-- ===== src/HttpServer.antt =====
-- np/np20.c: the HTTP server that takes uploads while it receives them.
pub mod Decoding
pub mod Thread
pub mod Receiving
mod Tests
use hust_network_programming.Base.{ℕ, zero, suc, [], ◌∷◌, ◌++◌, Option, none, some, length, drop}
use hust_network_programming.CText.{Bytes}
use hust_network_programming.CText.Search.{strstr, in_front}
use hust_network_programming.HttpUpload.{code_20}

abbrev pub decode_round : (Bytes → Option Bytes) → Bytes → Option Bytes → Option Bytes
decode_round rounds path none = some path
decode_round rounds path (some space) = rounds (in_front path space ++ (b' ' ∷ drop 3 space))

-- The loop that replaces the first code for a space until there is none, or `none` where it goes on.
-- The new path is shorter than the array that it was read into.
unfoldable pub decode_path : ℕ → Bytes → Option Bytes
decode_path zero path = none
decode_path (suc fuel) path = decode_round (decode_path fuel) path (strstr path code_20)
