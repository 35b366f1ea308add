-- ===== src/Wrapped/Connect.antt =====
-- `ConnectTimeout` of src/mynet/wrapped.cpp.
use cpp_gossip.Base.{ℕ, Bool, true, false, not, ◌&&◌, if◌then◌else◌, ◌==◌, some}
use cpp_gossip.Base.Int.{ℤ, pos, negsuc, ◌+ℤ◌}
use cpp_gossip.Handoff.{SockAddr}
use cpp_gossip.Wrapped.{
  Answer, System, Io, ◌>>=◌, ◌>>◌, pure, is_negative, is_zero, ask, fail, close_fd, select_fd,
  connect_called, fcntl_get_called, fcntl_set_called, getsockopt_called, close_called,
}

abbrev pub same_ℤ : ℤ → ℤ → Bool
same_ℤ (pos m) (pos n) = m == n
same_ℤ (negsuc m) (negsuc n) = m == n
same_ℤ (pos m) (negsuc n) = false
same_ℤ (negsuc m) (pos n) = false

module _ (sys : System) where
  open sys use {with_nonblock, e_in_progress, e_timed_out, unset_error, unset_sec}

  -- From the label `done`.
  abbrev pub connect_done : ℤ → ℤ → ℤ → Io (Unit {0})
  connect_done fd flags error = do
    ask sys (fcntl_set_called fd flags)
    if is_zero error
        then pure tt
        else (do ask sys (close_called fd); fail sys "Connect error: " error)

  -- From `error = 0` on; `ready` says whether the descriptor is in a set.
  abbrev pub connect_error : ℤ → ℤ → Bool → Io (Unit {0})
  connect_error fd flags true = do
    a ← ask sys (getsockopt_called fd)
    if is_negative a.value
        then fail sys "Getsockopt error: " a.errno
        else connect_done fd flags a.option
  connect_error fd flags false = connect_done fd flags (pos 0)

  -- With what `Select` gave.
  abbrev pub connect_waited : ℤ → ℤ → Answer → Io (Unit {0})
  connect_waited fd flags n =
      if is_zero n.value
      then (do close_fd sys fd; fail sys "Connect timeout: " e_timed_out)
      else connect_error fd flags n.is_set

  -- The wait for a connection in progress. Of the time only `tv_usec` is set.
  abbrev pub connect_wait : ℤ → ℤ → ℕ → Io (Unit {0})
  connect_wait fd flags timeout = do
    n ← select_fd sys (fd +ℤ pos 1) (some (unset_sec, timeout))
    connect_waited fd flags n

  unfoldable pub connect_timeout : ℤ → SockAddr → ℕ → Io (Unit {0})
  connect_timeout fd addr timeout = do
    flags ← ask sys (fcntl_get_called fd)
    ask sys (fcntl_set_called fd (with_nonblock flags.value))
    n ← ask sys (connect_called fd addr)
    if is_negative n.value && not (same_ℤ n.errno e_in_progress)
        then fail sys "Nonblock connect error: " n.errno
        else (if is_zero n.value
            then connect_done fd flags.value unset_error
            else connect_wait fd flags.value timeout)
