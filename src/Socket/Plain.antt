-- ===== src/Socket/Plain.antt =====
-- PlainSocket in common/include/blueboat/common/socket.hpp and common/src/socket.cpp: a socket
-- on a descriptor. The kernel's calls are a parameter.
use blueboat_cpp.Base.{ℕ, Option, none, some, Bytes}
use blueboat_cpp.Socket.{Link, Transfer}

pub record Calls : Type 1 where
  pub State : Type 0
  pub recv : ℕ → ℕ → State → Transfer Bytes × State
  pub send : ℕ → Bytes → State → Transfer ℕ × State
  pub shutdown : ℕ → State → State
  pub close : ℕ → State → State

module _ (calls : Calls) where
  open calls use {State}

  -- A descriptor that is negative is `none`.
  unfoldable pub destroy : Option ℕ → State → State
  destroy none s = s
  destroy (some fd) s = calls.close fd s

  unfoldable pub shutdown_close : Option ℕ → State → State
  shutdown_close none s = s
  shutdown_close (some fd) s = calls.shutdown fd s

  -- read and write give what the kernel's calls give.
  abbrev pub plain_link : ℕ → Link
  plain_link fd = record {
    State = State;
    read = λ n s. calls.recv fd n s;
    write = λ bs s. calls.send fd bs s;
  }
