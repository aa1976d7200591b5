-- ===== src/Capability/Handle.antt =====
-- internal/capability/store.go: the shape of a handle, its encoding, and the stored columns.
use gh_agent_broker.Prelude.{
  ℕ, ◌+◌, ◌-◌, ◌*◌, ◌/◌, ◌%◌, ◌<◌, String, ◌≡◌, refl, Bool, true, ◌&&◌, ◌||◌, arith, List, [], ◌∷◌,
  length, all_of, ltb, leb, eqb, if◌then◌else◌, Result, ok, require, ◌>>◌, All,
}
use gh_agent_broker.Capability.Claims.{Time, Error, handle_malformed, storage}

-- A Go string as its bytes.
abbrev pub Handle : Type 0
Handle = List ℕ

abbrev pub handle_bytes : ℕ
handle_bytes = 32

-- The digits that `hex.DecodeString` takes: both cases.
abbrev pub is_hex : ℕ → Bool
is_hex b = leb b'0' b && leb b b'9' || leb b'a' b && leb b b'f' || leb b'A' b && leb b b'F'

abbrev pub hex_digit : ℕ → ℕ
hex_digit n = if ltb n 10 then b'0' + n else b'a' + (n - 10)

-- hex.EncodeToString
unfoldable pub hex_encode : List ℕ → Handle
hex_encode [] = []
hex_encode (b ∷ raw) = hex_digit (b / 16) ∷ hex_digit (b % 16) ∷ hex_encode raw

-- `hashHandle` is a parameter: SHA-256 in hexadecimal.
unfoldable pub digest_of : (Handle → String) → Handle → Result Error String
digest_of hash_handle handle = do
  require (eqb (length handle) (handle_bytes * 2)) handle_malformed
  require (all_of is_hex handle) handle_malformed
  ok (hash_handle handle)

-- January 1 of year 10000. RFC3339Nano writes four digits of a year before it, and the text of a
-- later year is not parsed again.
abbrev pub year_10000 : Time
year_10000 = 3652059 * 86400 * 1000000000

-- `parseStoreTime` of what `formatStoreTime` wrote.
unfoldable pub parse_store_time : Time → Result Error Time
parse_store_time t = do require (ltb t year_10000) storage; ok t

abbrev pub IsByte : ℕ → Type 0
IsByte b = b < 256

length-hex_encode : (raw : List ℕ) → length (hex_encode raw) ≡ length raw * 2
unfolding hex_encode
length-hex_encode [] = refl
length-hex_encode (b ∷ raw) = omega (arith, length-hex_encode raw)

hex_digit-is_hex : (n : ℕ) → n < 16 → is_hex (hex_digit n) ≡ true
hex_digit-is_hex n h = ground arith

all_of-hex_encode : (raw : List ℕ) → All IsByte raw → all_of is_hex (hex_encode raw) ≡ true
unfolding hex_encode
all_of-hex_encode [] h = refl
all_of-hex_encode (b ∷ raw) h =
    ground (arith, hex_digit-is_hex (b / 16), hex_digit-is_hex (b % 16), all_of-hex_encode raw)

-- A handle of 32 random bytes has the shape that is asked of a presented one.
pub digest_of-hex_encode :
    (hash_handle : Handle → String) (raw : List ℕ)
    → length raw ≡ handle_bytes
    → All IsByte raw
    → digest_of hash_handle (hex_encode raw) ≡ ok (hash_handle (hex_encode raw))
unfolding digest_of
digest_of-hex_encode hash_handle raw n h =
    ground (arith, length-hex_encode raw, all_of-hex_encode raw)
