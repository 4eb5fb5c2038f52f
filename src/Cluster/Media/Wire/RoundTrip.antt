-- ===== src/Cluster/Media/Wire/RoundTrip.antt =====
-- internal/cluster/media_transport.go: what the wire format carries comes back whole.
use Prim.Native.Nat.{◌%◌}
use pulse_rtc.Prelude.{
  ℕ, zero, suc, ◌+◌, ◌*◌, ◌≤◌, ◌≡◌, refl, ◌∙◌, true, false, none, some, List, [], ◌∷◌, ◌++◌, arith,
  ltb, ◌==◌, if◌then◌else◌, length, length-append, take, drop, string_eq,
}
use mathlib.Core.List.{append_assoc}
use pulse_rtc.Prelude.{get_or}
use pulse_rtc.Cluster.Media.Wire.{
  Bytes, encode_frame, decode_frame, encode_keyed, decode_keyed, hello_payload, parse_hello,
  parse_dst, high_byte, low_byte,
}

module _ {ℓ} {A : Type ℓ} where
  pub take-append : (n : ℕ) (xs ys : List A) → length xs ≡ n → take n (xs ++ ys) ≡ xs
  take-append zero [] ys h = refl
  take-append (suc n) [] ys h = absurd (let no : ⊥ = ground arith in no)
  take-append zero (x ∷ xs) ys h = absurd (let no : ⊥ = ground arith in no)
  take-append (suc n) (x ∷ xs) ys h = rw (take-append n xs ys (omega arith)) refl

  pub drop-append : (n : ℕ) (xs ys : List A) → length xs ≡ n → drop n (xs ++ ys) ≡ ys
  drop-append zero [] ys h = refl
  drop-append (suc n) [] ys h = absurd (let no : ⊥ = ground arith in no)
  drop-append zero (x ∷ xs) ys h = absurd (let no : ⊥ = ground arith in no)
  drop-append (suc n) (x ∷ xs) ys h = drop-append n xs ys (omega arith)

  pub get_or-drop : (n i : ℕ) (xs : List A) (d : A) → get_or xs (n + i) d ≡ get_or (drop n xs) i d
  get_or-drop zero i xs d = let e : 0 + i ≡ i = omega arith in rw e refl
  get_or-drop (suc n) i [] d = ground arith
  get_or-drop (suc n) i (x ∷ xs) d =
      let e : suc n + i ≡ suc (n + i) = omega arith in rw e (get_or-drop n i xs d)

  drop-nil : (n : ℕ) → ◌≡◌ {A = List A} (drop n []) []
  drop-nil zero = refl
  drop-nil (suc n) = refl

  drop-drop : (n i : ℕ) (xs : List A) → drop (n + i) xs ≡ drop i (drop n xs)
  drop-drop zero i xs = let e : 0 + i ≡ i = omega arith in rw e refl
  drop-drop (suc n) i [] = rw (drop-nil i, drop-nil (suc n + i)) refl
  drop-drop (suc n) i (x ∷ xs) =
      let e : suc n + i ≡ suc (n + i) = omega arith in rw e (drop-drop n i xs)

-- A keyed packet comes back whole where the key has at most 255 bytes.
pub decode_keyed-encode_keyed :
    (key packet : Bytes)
    → length key ≤ 255
    → decode_keyed (encode_keyed key packet) ≡ some (key, packet)
unfolding decode_keyed encode_keyed
decode_keyed-encode_keyed key packet h =
    let e : ltb 255 (length key) ≡ false = ground arith in
    let l : ltb (length (key ++ packet)) (length key) ≡ false =
      ground (arith, length-append key packet) in
    rw (e, l, take-append (length key) key packet refl, drop-append (length key) key packet refl)
      refl

parse_dst_lem :
    (src dst mac : Bytes)
    → length mac ≡ 32
    → parse_dst src (length dst ∷ (dst ++ mac)) ≡ some (record { src = src; dst = dst; mac = mac })
unfolding parse_dst
parse_dst_lem src dst mac h =
    let e : (length (dst ++ mac) == length dst + 32) ≡ true =
      ground (arith, length-append dst mac) in
    rw (e, take-append (length dst) dst mac refl, drop-append (length dst) dst mac refl) refl

-- A HELLO comes back whole where both ids have at most 255 bytes and the code has 32.
pub parse_hello-hello_payload :
    (src dst mac : Bytes)
    → length src ≤ 255
    → length dst ≤ 255
    → length mac ≡ 32
    → parse_hello (hello_payload src dst mac) ≡ some (record { src = src; dst = dst; mac = mac })
unfolding parse_hello hello_payload
parse_hello-hello_payload src dst mac hs hd hm =
    let es : length src % 256 ≡ length src = omega arith in
    let ed : length dst % 256 ≡ length dst = omega arith in
    let tail = length dst ∷ (dst ++ mac) in
    let l : ltb (length (src ++ tail)) (length src + 1) ≡ false =
      ground (arith, length-append src tail) in
    rw (es, ed, l, take-append (length src) src tail refl, drop-append (length src) src tail refl)
      (parse_dst_lem src dst mac hm)

abbrev body_length : Bytes → ℕ
body_length xs = get_or xs 16 0 * 256 + get_or xs 17 0

decode_frame-body :
    (kind : ℕ) (xs : Bytes)
    → 18 ≤ length xs
    → decode_frame (156 ∷ (1 ∷ (kind ∷ xs))) ≡ (
        if ltb (length xs) (18 + body_length xs)
        then none
        else some (record {
          kind = kind;
          session_id = take 16 xs;
          payload = take (body_length xs) (drop 18 xs);
        }))
unfolding decode_frame
decode_frame-body kind xs h = ground arith

-- A datagram that begins with a frame is read as that frame, whatever follows it, where the payload
-- has at most 65535 bytes.
pub decode_frame-encode_frame :
    (kind : ℕ) (session_id payload rest : Bytes)
    → length session_id ≡ 16
    → length payload ≤ 65535
    → decode_frame (encode_frame kind session_id payload ++ rest)
      ≡ some (record { kind = kind; session_id = session_id; payload = payload })
unfolding encode_frame
decode_frame-encode_frame kind session_id payload rest hs hp =
    let n = length payload in
    let tail = high_byte n ∷ (low_byte n ∷ (payload ++ rest)) in
    let a : ((session_id ++ (high_byte n ∷ (low_byte n ∷ payload))) ++ rest) ≡ session_id ++ tail =
      append_assoc session_id (high_byte n ∷ (low_byte n ∷ payload)) rest in
    let d16 : drop 16 (session_id ++ tail) ≡ tail = drop-append 16 session_id tail hs in
    let d18 : drop 18 (session_id ++ tail) ≡ payload ++ rest =
      drop-drop 16 2 (session_id ++ tail) ∙ rw d16 refl in
    let hi : get_or (session_id ++ tail) 16 0 ≡ high_byte n =
      get_or-drop 16 0 (session_id ++ tail) 0 ∙ rw d16 refl in
    let lo : get_or (session_id ++ tail) 17 0 ≡ low_byte n =
      get_or-drop 16 1 (session_id ++ tail) 0 ∙ rw d16 refl in
    let len : high_byte n * 256 + low_byte n ≡ n = omega arith in
    let total : length (session_id ++ tail) ≡ 18 + n + length rest =
      ground (arith, length-append session_id tail, length-append payload rest) in
    rw
      (
        a,
        decode_frame-body kind (session_id ++ tail) (omega (arith, total)),
        hi,
        lo,
        len,
        d18,
        take-append 16 session_id tail hs,
        take-append n payload rest refl,
      )
      (ground (arith, total))
