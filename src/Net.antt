-- ===== src/Net.antt =====
-- src/mynet/net.cpp: a message on the wire. `serialize` and `parse` are the serialiser's
-- (`SerializeAsString`, and `ParseFromString` with the message as it leaves it).
use cpp_gossip.Base.{
  take_of_length-le, length-take-le, le→leb, ◌≤◌, refl, ℕ, ◌<◌, ◌≡◌, ◌≢◌, Bool, List, [], ◌∷◌, ◌++◌,
  take, ◌==◌, leb, if◌then◌else◌, length, arith, All,
}
use cpp_gossip.Message.{MessageData}

-- A `char` array as the `std::string` that it converts to: up to the first zero.
unfoldable pub c_string : List ℕ → List ℕ
c_string [] = []
c_string (x ∷ xs) = if x == 0 then [] else x ∷ c_string xs

abbrev pub buffer_size : ℕ
buffer_size = 1024

-- What a read does to the array of 1024 bytes: `buf[n] = 0` with n = 1024 is past its end.
pub data Received : Type 0 where
  overrun : Received
  text : List ℕ → Received

unfoldable pub receive : List ℕ → Received
receive payload =
    let got = take buffer_size payload in
    if leb buffer_size (length got) then overrun else text (c_string got)

module _ (serialize : MessageData → List ℕ) (parse : List ℕ → MessageData × Bool) where
  -- `decodeReceiveUDP` and `decodeReceiveTCP`: a parse error is only reported.
  pub data Decoded : Type 0 where
    undefined : Decoded
    message : MessageData → Decoded

  abbrev pub decode : Received → Decoded
  decode overrun = undefined
  decode (text s) = message (parse s).0

  unfoldable pub decode_receive : List ℕ → Decoded
  decode_receive payload = decode (receive payload)

  -- The bytes that `encodeSendUDP` and `encodeSendTCP` hand to the system.
  unfoldable pub encode_send : MessageData → List ℕ
  encode_send md = serialize md

  c_string_whole : (s : List ℕ) → All (λ x. x ≢ 0) s → c_string s ≡ s
  unfolding c_string
  c_string_whole [] h = refl
  c_string_whole (x ∷ s) h = ground (arith, c_string_whole s h.1)

  c_string_zero : (s rest : List ℕ) → All (λ x. x ≢ 0) s → c_string (s ++ 0 ∷ rest) ≡ s
  unfolding c_string
  c_string_zero [] rest h = refl
  c_string_zero (x ∷ s) rest h = ground (arith, c_string_zero s rest h.1)

  receive_short : (s : List ℕ) → length s < buffer_size → receive s ≡ text (c_string s)
  unfolding receive
  receive_short s h = rw (take_of_length-le buffer_size s (omega arith)) (ground arith)

  -- A message that the parser gives back, and whose bytes are fewer than the buffer has and hold no
  -- zero, is received as it was sent.
  pub decode_receive-encode_send :
      (md : MessageData) (ok : Bool)
      → parse (serialize md) ≡ (md, ok)
      → length (serialize md) < buffer_size
      → All (λ x. x ≢ 0) (serialize md)
      → decode_receive (encode_send md) ≡ message md
  unfolding decode_receive encode_send
  decode_receive-encode_send md ok p short h =
      rw (receive_short (serialize md) short, c_string_whole (serialize md) h, p)

  -- Of a message whose bytes are fewer than the buffer has and hold a zero, the parser is given only
  -- those before the first zero.
  pub decode_receive-zero :
      (md : MessageData) (s rest : List ℕ)
      → serialize md ≡ s ++ 0 ∷ rest
      → length (serialize md) < buffer_size
      → All (λ x. x ≢ 0) s
      → decode_receive (encode_send md) ≡ message (parse s).0
  unfolding decode_receive encode_send
  decode_receive-zero md s rest e short h =
      rw (receive_short (serialize md) short, e, c_string_zero s rest h)

  -- A datagram or a read that fills the buffer is written past.
  pub decode_receive-overrun :
      (payload : List ℕ) → buffer_size ≤ length payload → decode_receive payload ≡ undefined
  unfolding decode_receive receive
  decode_receive-overrun payload h = rw (le→leb _ _ (length-take-le buffer_size payload h))
