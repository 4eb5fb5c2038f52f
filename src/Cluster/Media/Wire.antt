-- ===== src/Cluster/Media/Wire.antt =====
-- internal/cluster/media_transport.go: the wire format, with bytes as numbers below 256.
pub mod RoundTrip
use Prim.Native.Nat.{◌/◌, ◌%◌}
use pulse_rtc.Prelude.{
  ℕ, zero, suc, ◌+◌, ◌-◌, ◌*◌, ◌≤◌, ◌<◌, ◌≡◌, ◌≢◌, ◌↔◌, ◌⊎◌, inl, inr, refl, sym, ap, ◌∙◌, Bool,
  true, false, ◌&&◌, ◌||◌, not, Option, none, some, List, [], ◌∷◌, ◌++◌, map, String, arith, ltb,
  leb, ◌==◌, if◌then◌else◌, Bool-cases, Option-cases, length, length-append, take, drop, Eq, ◌=?◌,
  string_eq, All, All-append, is_some,
}
use pulse_rtc.Prelude.{get_or}

abbrev pub Bytes : Type 0
Bytes = List ℕ

abbrev bytes_beq : Bytes → Bytes → Bool
bytes_beq [] [] = true
bytes_beq [] (y ∷ ys) = false
bytes_beq (x ∷ xs) [] = false
bytes_beq (x ∷ xs) (y ∷ ys) = x == y && bytes_beq xs ys

pub bytes_beq_iff : (xs ys : Bytes) → (bytes_beq xs ys ≡ true) ↔ (xs ≡ ys)
bytes_beq_iff [] [] = ground arith
bytes_beq_iff [] (y ∷ ys) = ground arith
bytes_beq_iff (x ∷ xs) [] = ground arith
bytes_beq_iff (x ∷ xs) (y ∷ ys) = ground (arith, bytes_beq_iff xs ys)

instance abbrev pub bytes_eq : Eq Bytes
bytes_eq = record { beq = bytes_beq; beq_iff = bytes_beq_iff }

abbrev media_magic : ℕ
media_magic = 156

abbrev media_version : ℕ
media_version = 1

abbrev media_header_size : ℕ
media_header_size = 21

abbrev pub frame_hello : ℕ
frame_hello = 0

abbrev pub frame_rtp : ℕ
frame_rtp = 1

abbrev pub frame_rtcp : ℕ
frame_rtcp = 2

abbrev pub frame_heartbeat : ℕ
frame_heartbeat = 3

abbrev pub frame_bye : ℕ
frame_bye = 4

-- `PutUint16` and `Uint16` of `binary.BigEndian`; the conversion to uint16 wraps.
abbrev pub high_byte : ℕ → ℕ
high_byte n = n % 65536 / 256

abbrev pub low_byte : ℕ → ℕ
low_byte n = n % 65536 % 256

-- A session id has 16 bytes, by its type in the source.
unfoldable pub encode_frame : ℕ → Bytes → Bytes → Bytes
encode_frame kind session_id payload =
    media_magic
    ∷ (media_version
        ∷ (kind
            ∷ (session_id ++ (high_byte (length payload) ∷ (low_byte (length payload) ∷ payload)))))

pub record ParsedFrame : Type 0 where
  pub kind : ℕ
  pub session_id : Bytes
  pub payload : Bytes

abbrev pub payload_length : Bytes → ℕ
payload_length b = get_or b 19 0 * 256 + get_or b 20 0

abbrev pub header_ok : Bytes → Bool
header_ok b =
    not (ltb (length b) media_header_size)
    && (get_or b 0 0 == media_magic)
    && (get_or b 1 0 == media_version)

unfoldable pub decode_frame : Bytes → Option ParsedFrame
decode_frame b =
    if header_ok b
    then if ltb (length b) (media_header_size + payload_length b)
      then none
      else some (record {
        kind = get_or b 2 0;
        session_id = take 16 (drop 3 b);
        payload = take (payload_length b) (drop media_header_size b);
      })
    else none

unfoldable pub encode_keyed : Bytes → Bytes → Bytes
encode_keyed key packet =
    let k = if ltb 255 (length key) then take 255 key else key in length k ∷ (k ++ packet)

unfoldable pub decode_keyed : Bytes → Option (Bytes × Bytes)
decode_keyed [] = none
decode_keyed (kl ∷ rest) = if ltb (length rest) kl then none else some (take kl rest, drop kl rest)

-- The payload of a HELLO, as `sendHello` writes it: `byte(len(src))` wraps.
unfoldable pub hello_payload : Bytes → Bytes → Bytes → Bytes
hello_payload src dst mac = (length src % 256) ∷ (src ++ ((length dst % 256) ∷ (dst ++ mac)))

pub record Hello : Type 0 where
  pub src : Bytes
  pub dst : Bytes
  pub mac : Bytes

-- What follows the source's id: the length of the destination's, that id and 32 bytes.
unfoldable pub parse_dst : Bytes → Bytes → Option Hello
parse_dst src [] = none
parse_dst src (dl ∷ rest) =
    if length rest == dl + 32
    then some (record { src = src; dst = take dl rest; mac = drop dl rest })
    else none

unfoldable pub parse_hello : Bytes → Option Hello
parse_hello [] = none
parse_hello (sl ∷ rest) =
    if ltb (length rest) (sl + 1) then none else parse_dst (take sl rest) (drop sl rest)
