-- ===== src/Wrapped/Laws.antt =====
-- What `ConnectTimeout` leaves behind.
use cpp_gossip.Base.{
  ℕ, ◌+◌, ◌≤◌, ◌≡◌, some, Bool, Bool-cases, inl, inr, true, false, not, ◌&&◌, List, [], ◌∷◌,
  if◌then◌else◌, arith,
}
use cpp_gossip.Base.Int.{ℤ, pos, negsuc, ◌+ℤ◌}
use cpp_gossip.Handoff.{SockAddr}
use cpp_gossip.Wrapped.{
  Act, System, Result, is_negative, is_zero, fail, select_called, connect_called, fcntl_get_called,
  fcntl_set_called, getsockopt_called, close_called, returned, thrown, corrupted, aborted,
}
use cpp_gossip.Wrapped.Rules.{after_checked, after_unit}
use cpp_gossip.Wrapped.Connect.{
  same_ℤ, connect_done, connect_error, connect_wait, connect_waited, connect_timeout,
}

-- How often the descriptor was closed.
unfoldable pub closes : ℤ → List Act → ℕ
closes fd [] = 0
closes fd (close_called g ∷ h) = (if same_ℤ g fd then 1 else 0) + closes fd h
closes fd (c ∷ h) = closes fd h

-- The flags that the descriptor was given last.
unfoldable pub flags_of : ℤ → List Act → ℤ
flags_of fd [] = pos 0
flags_of fd (fcntl_set_called g flags ∷ h) = if same_ℤ g fd then flags else flags_of fd h
flags_of fd (c ∷ h) = flags_of fd h

pub same_ℤ-self : (a : ℤ) → same_ℤ a a ≡ true
same_ℤ-self (pos n) = ground arith
same_ℤ-self (negsuc n) = ground arith

-- Back from `ConnectTimeout` with `n` closings of the descriptor before it, and these flags.
abbrev pub Connected : ℤ → ℕ → ℤ → Result (Unit {0}) × List Act → Type 0
Connected fd n flags (returned a, h) = (closes fd h ≡ n) × (flags_of fd h ≡ flags)
Connected fd n flags (thrown e, h) = closes fd h ≤ n + 1
Connected fd n flags (corrupted, h) = ⊥
Connected fd n flags (aborted, h) = ⊥

module _ (sys : System) (fd : ℤ) where
  connect_done-Connected :
      (flags error : ℤ) (h : List Act)
      → Connected fd (closes fd h) flags (connect_done sys fd flags error h)
  unfolding closes flags_of
  connect_done-Connected flags error h = elim (Bool-cases (is_zero error)) [
    | inl z ↦ rw z (ground (arith, same_ℤ-self fd))
    | inr z ↦ rw z (ground (arith, same_ℤ-self fd))
  ]

  connect_error-Connected :
      (flags : ℤ) (ready : Bool) (h : List Act)
      → Connected fd (closes fd h) flags (connect_error sys fd flags ready h)
  unfolding closes flags_of
  connect_error-Connected flags false h = connect_done-Connected flags (pos 0) h
  connect_error-Connected flags true h =
      let a = sys.answer (getsockopt_called fd ∷ h) in
      elim (Bool-cases (is_negative a.value)) [
        | inl n ↦ rw n (omega arith)
        | inr n ↦ rw n (connect_done-Connected flags a.option (getsockopt_called fd ∷ h))
      ]

  connect_wait-Connected :
      (flags : ℤ) (timeout : ℕ) (h : List Act)
      → Connected fd (closes fd h) flags (connect_wait sys fd flags timeout h)
  unfolding closes flags_of
  connect_wait-Connected flags timeout h =
      let c = select_called (fd +ℤ pos 1) (some (sys.unset_sec, timeout)) in
      let P = Connected fd (closes fd h) flags in
      after_checked sys P _ c h (connect_waited sys fd flags) (omega arith)
        (elim (Bool-cases (is_zero (sys.answer (c ∷ h)).value)) [
          | inl z ↦ rw z (
              after_unit sys P _ (close_called fd) (c ∷ h)
                (λ _. fail sys "Connect timeout: " sys.e_timed_out) (ground (arith, same_ℤ-self fd))
                (ground (arith, same_ℤ-self fd)))
          | inr z ↦ rw z (connect_error-Connected flags (sys.answer (c ∷ h)).is_set (c ∷ h))
        ])

  -- `ConnectTimeout` either returns, leaves the descriptor open, and gives it its old flags back; or
  -- throws, and has closed the descriptor at most once.
  pub connect_timeout-Connected :
      (addr : SockAddr) (timeout : ℕ) (h : List Act)
      → Connected fd
          (closes fd h)
          (sys.answer (fcntl_get_called fd ∷ h)).value
          (connect_timeout sys fd addr timeout h)
  unfolding connect_timeout closes flags_of
  connect_timeout-Connected addr timeout h =
      let flags = (sys.answer (fcntl_get_called fd ∷ h)).value in
      let h' =
        connect_called fd addr
        ∷ fcntl_set_called fd (sys.with_nonblock flags)
        ∷ fcntl_get_called fd
        ∷ h in
      let a = sys.answer h' in
      elim (Bool-cases (is_negative a.value && not (same_ℤ a.errno sys.e_in_progress))) [
        | inl n ↦ rw n (omega arith)
        | inr n ↦ elim (Bool-cases (is_zero a.value)) [
          | inl z ↦ rw (n, z) (connect_done-Connected flags sys.unset_error h')
          | inr z ↦ rw (n, z) (connect_wait-Connected flags timeout h')
        ]
      ]
