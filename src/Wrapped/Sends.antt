-- ===== src/Wrapped/Sends.antt =====
-- What a connection, a send and a read leave of a descriptor, for the calls that are made of them.
use cpp_gossip.Base.{ℕ, ◌+◌, ◌≤◌, ◌≡◌, refl, Bool, List, ◌∷◌, String, ap}
use cpp_gossip.Base.Int.{ℤ}
use cpp_gossip.Message.{MessageData}
use cpp_gossip.Handoff.{SockAddr}
use cpp_gossip.Net.{
  Received, receive, buffer_size, overrun, text, message, decode, decode_receive, encode_send,
}
use cpp_gossip.Wrapped.{
  Act, System, Result, Io, ◌>>=◌, pure, returned, thrown, corrupted, aborted, write_called,
  read_called,
}
use cpp_gossip.Wrapped.Rules.{after_checked, after_value, after_bind}
use cpp_gossip.Wrapped.Laws.{closes, Connected, connect_timeout-Connected}
use cpp_gossip.Wrapped.Connect.{connect_timeout}
use cpp_gossip.Wrapped.Stream.{parsed, decode_receive_tcp, encode_send_tcp}

module _ (sys : System) (serialize : MessageData → List ℕ)
    (parse : List ℕ → MessageData × Bool) where
  -- The descriptor has been closed `n` times, and the call has not ended the process.
  abbrev pub Quiet {ℓ} : {A : Type ℓ} → ℤ → ℕ → Result A × List Act → Type 0
  Quiet fd n (returned a, h) = closes fd h ≡ n
  Quiet fd n (thrown e, h) = closes fd h ≡ n
  Quiet fd n (corrupted, h) = closes fd h ≡ n
  Quiet fd n (aborted, h) = ⊥

  pub encode_send_tcp-Quiet :
      (fd : ℤ) (md : MessageData) (h : List Act)
      → Quiet fd (closes fd h) (encode_send_tcp sys serialize parse fd md h)
  unfolding closes
  encode_send_tcp-Quiet fd md h =
      after_value sys (Quiet fd (closes fd h)) "write error: "
        (write_called fd (encode_send serialize parse md)) h (λ _. pure tt) refl refl

  -- A message that was read, and nothing closed.
  abbrev pub Heard : ℤ → ℕ → Result MessageData × List Act → Type 0
  Heard fd n (returned md, h) =
      (closes fd h ≡ n)
      × (h₁ : List Act) × (h ≡ read_called fd buffer_size ∷ h₁)
      × (decode_receive serialize parse (sys.answer (read_called fd buffer_size ∷ h₁)).bytes
          ≡ message md)
  Heard fd n (thrown e, h) = closes fd h ≡ n
  Heard fd n (corrupted, h) = closes fd h ≡ n
  Heard fd n (aborted, h) = ⊥

  parsed-Heard :
      (fd : ℤ) (r : Received) (h₁ h : List Act)
      → h ≡ read_called fd buffer_size ∷ h₁
      → receive (sys.answer (read_called fd buffer_size ∷ h₁)).bytes ≡ r
      → Heard fd (closes fd h) (parsed sys serialize parse r h)
  unfolding decode_receive
  parsed-Heard fd overrun h₁ h l e = refl
  parsed-Heard fd (text s) h₁ h l e = (refl, h₁, l, ap (decode serialize parse) e)

  pub decode_receive_tcp-Heard :
      (fd : ℤ) (h : List Act) → Heard fd (closes fd h) (decode_receive_tcp sys serialize parse fd h)
  unfolding closes
  decode_receive_tcp-Heard fd h =
      let c = read_called fd buffer_size in
      after_checked sys (Heard fd (closes fd h)) "read error: " c h
        (λ a. parsed sys serialize parse (receive a.bytes)) refl
        (parsed-Heard fd (receive (sys.answer (c ∷ h)).bytes) h (c ∷ h) refl refl)

  -- The connection that a call makes, and then the rest of the call.
  pub after_connect :
      {B : Type 0} (P : Result B × List Act → Type 0) (fd : ℤ) (a : SockAddr) (timeout : ℕ)
      (k : Unit {0} → Io B) (h : List Act)
      → ((h' : List Act) → closes fd h' ≡ closes fd h → P (k tt h'))
      → ((e : String) (h' : List Act) → closes fd h' ≤ closes fd h + 1 → P (thrown e, h'))
      → P ((connect_timeout sys fd a timeout >>= k) h)
  after_connect P fd a timeout k h back throws =
      after_bind P (Connected fd (closes fd h) _) (connect_timeout sys fd a timeout) k h
        (connect_timeout-Connected sys fd a timeout h) (λ _ h' q. back h' q.0) throws
        (λ h' q. absurd q) (λ h' q. absurd q)
