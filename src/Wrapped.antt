-- ===== src/Wrapped.antt =====
-- src/mynet/wrapped.cpp: the calls of the system that throw on an error. The system is a function of
-- the history of the calls, the last of which is the one that it answers; the history also has the
-- lines that are logged, and is latest first.
pub mod Rules
pub mod Connect
pub mod Laws
pub mod Stream
pub mod Sends
pub mod Descriptors
pub mod Transfers
pub mod Periodic
pub mod Serve
use cpp_gossip.Base.{ℕ, zero, suc, String, Bool, true, false, Option, List, ◌∷◌, if◌then◌else◌}
use cpp_gossip.Base.Int.{ℤ, pos, negsuc}
use cpp_gossip.Handoff.{SockAddr}

pub data Act : Type 0 where
  socket_called : ℕ → ℕ → ℕ → Act
  bind_called : ℤ → SockAddr → Act
  listen_called : ℤ → ℕ → Act
  connect_called : ℤ → SockAddr → Act
  accept_called : ℤ → Act
  write_called : ℤ → List ℕ → Act
  read_called : ℤ → ℕ → Act
  close_called : ℤ → Act
  sendto_called : ℤ → List ℕ → SockAddr → Act
  recvfrom_called : ℤ → ℕ → Act
  epoll_create_called : ℤ → Act
  epoll_ctl_called : ℤ → ℤ → ℤ → Act
  epoll_wait_called : ℤ → ℤ → ℤ → Act
  pipe_called : Act
  pipe2_called : ℤ → Act
  select_called : ℤ → Option (ℕ × ℕ) → Act
  fcntl_get_called : ℤ → Act
  fcntl_set_called : ℤ → ℤ → Act
  getsockopt_called : ℤ → Act
  setsockopt_called : ℤ → ℕ → ℕ → ℕ → Act
  clock_read : Act
  logged : String → String → Act

-- What a call returns and leaves in `errno`, whether the descriptor is in a set of `select`, the bytes
-- that were read, and the option that was asked for.
pub record Answer : Type 0 where
  pub value : ℤ
  pub errno : ℤ
  pub is_set : Bool
  pub bytes : List ℕ
  pub option : ℤ

-- The system. `unset_error` is what the local `error` of `ConnectTimeout` holds before it is set, and
-- `unset_sec` what each `tv_sec` holds, which the code never sets.
pub record System : Type 0 where
  pub answer : List Act → Answer
  pub strerror : ℤ → String
  pub with_nonblock : ℤ → ℤ
  pub e_in_progress : ℤ
  pub e_timed_out : ℤ
  pub af_inet : ℕ
  pub sock_stream : ℕ
  pub sock_dgram : ℕ
  pub o_direct : ℤ
  pub so_sndtimeo : ℕ
  pub so_rcvtimeo : ℕ
  pub unset_error : ℤ
  pub unset_sec : ℕ

-- A call returns, throws a `wrapException` with a text, has written outside a buffer, or ends the
-- process by LOG(FATAL).
pub data Result {ℓ} (A : Type ℓ) : Type ℓ where
  returned : A → Result A
  thrown : String → Result A
  corrupted : Result A
  aborted : Result A

abbrev pub Io {ℓ} : Type ℓ → Type ℓ
Io A = List Act → Result A × List Act

infixl 5 ◌>>=◌ ◌>>◌
abbrev pub ◌>>=◌ {ℓ κ} : {A : Type ℓ} {B : Type κ} → Io A → (A → Io B) → Io B
m >>= f = λ h.
    let (r, h') = m h in
    elim r [
      | returned a ↦ f a h'
      | thrown e ↦ (thrown e, h')
      | corrupted ↦ (corrupted, h')
      | aborted ↦ (aborted, h')
    ]

abbrev pub ◌>>◌ {ℓ κ} : {A : Type ℓ} {B : Type κ} → Io A → Io B → Io B
m >> k = m >>= λ _. k

abbrev pub pure {ℓ} : {A : Type ℓ} → A → Io A
pure a = λ h. (returned a, h)

abbrev pub is_negative : ℤ → Bool
is_negative (pos n) = false
is_negative (negsuc n) = true

abbrev pub is_zero : ℤ → Bool
is_zero (pos zero) = true
is_zero (pos (suc n)) = false
is_zero (negsuc n) = false

module _ (sys : System) where
  open sys use {answer, strerror}

  -- A call that is not wrapped.
  abbrev pub ask : Act → Io Answer
  ask c = λ h. (returned (answer (c ∷ h)), c ∷ h)

  -- The line and the exception of every wrapper, with `errno`.
  abbrev pub fail {ℓ} : {A : Type ℓ} → String → ℤ → Io A
  fail text errno = λ h. (thrown (strerror errno), logged text (strerror errno) ∷ h)

  abbrev pub checked : String → Act → Io Answer
  checked text c = do a ← ask c; if is_negative a.value then fail text a.errno else pure a

  abbrev pub checked_value : String → Act → Io ℤ
  checked_value text c = do a ← checked text c; pure a.value

  abbrev pub checked_unit : String → Act → Io (Unit {0})
  checked_unit text c = do checked text c; pure tt

  abbrev pub socket : ℕ → ℕ → ℕ → Io ℤ
  socket domain type protocol = checked_value "socket error: " (socket_called domain type protocol)

  abbrev pub bind : ℤ → SockAddr → Io (Unit {0})
  bind fd addr = checked_unit "bind error: " (bind_called fd addr)

  abbrev pub listen : ℤ → ℕ → Io (Unit {0})
  listen fd n = checked_unit "listen error: " (listen_called fd n)

  abbrev pub connect : ℤ → SockAddr → Io (Unit {0})
  connect fd addr = checked_unit "connect error: " (connect_called fd addr)

  abbrev pub accept : ℤ → Io ℤ
  accept fd = checked_value "accept error: " (accept_called fd)

  abbrev pub write : ℤ → List ℕ → Io ℤ
  write fd buf = checked_value "write error: " (write_called fd buf)

  -- With the bytes that were read, and so for `recvfrom`.
  abbrev pub read : ℤ → ℕ → Io Answer
  read fd n = checked "read error: " (read_called fd n)

  abbrev pub close_fd : ℤ → Io (Unit {0})
  close_fd fd = checked_unit "close error: " (close_called fd)

  abbrev pub sendto : ℤ → List ℕ → SockAddr → Io ℤ
  sendto fd buf addr = checked_value "sendto error: " (sendto_called fd buf addr)

  abbrev pub recvfrom : ℤ → ℕ → Io Answer
  recvfrom fd n = checked "recvfrom error: " (recvfrom_called fd n)

  abbrev pub epoll_create : ℤ → Io ℤ
  epoll_create size = checked_value "epollCreate error: " (epoll_create_called size)

  abbrev pub epoll_ctl : ℤ → ℤ → ℤ → Io (Unit {0})
  epoll_ctl epfd op fd = checked_unit "epollCtl error: " (epoll_ctl_called epfd op fd)

  abbrev pub epoll_wait : ℤ → ℤ → ℤ → Io ℤ
  epoll_wait epfd maxevents timeout =
      checked_value "epollWait error: " (epoll_wait_called epfd maxevents timeout)

  abbrev pub pipe : Io (Unit {0})
  pipe = checked_unit "pipe error: " pipe_called

  abbrev pub pipe2 : ℤ → Io (Unit {0})
  pipe2 flags = checked_unit "pipe2 error: " (pipe2_called flags)

  -- `select` with its seconds and microseconds, if there is a timeout, and whether the descriptor
  -- of its caller is in a set.
  abbrev pub select_fd : ℤ → Option (ℕ × ℕ) → Io Answer
  select_fd nfds timeout = checked "select error: " (select_called nfds timeout)
