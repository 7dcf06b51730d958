-- ===== src/Tcp.antt =====
-- common/include/blueboat/common/tcp.hpp and common/src/tcp.cpp: making sockets. The kernel's calls
-- are a parameter.
pub mod Descriptors
use blueboat_cpp.Http.Text.{to_string}
use blueboat_cpp.Base.{ℕ, ◌%◌, ◌^◌, Bool, true, false, Option, none, some, List, [], ◌∷◌, Bytes}

pub data Family : Type 0 where
  ipv4 ipv6 : Family

pub data SocketOption : Type 0 where
  reuse_addr v6only_off no_delay : SocketOption

-- A descriptor that is negative is `none`; a call that gives 0 is `true`.
pub record Kernel : Type 1 where
  pub State : Type 0
  -- addrinfo
  pub Address : Type 0
  pub socket : Family → State → Option ℕ × State
  pub socket_for : Address → State → Option ℕ × State
  pub set_option : ℕ → SocketOption → State → State
  -- the descriptor, the family of the address, and its port; the address is any
  pub bind : ℕ → Family → ℕ → State → Bool × State
  pub listen : ℕ → ℕ → State → Bool × State
  pub accept : ℕ → State → Option ℕ × State
  pub connect : ℕ → Address → State → Bool × State
  pub close : ℕ → State → State
  pub getaddrinfo : Bytes → Bytes → State → Option (List Address) × State

module _ (kernel : Kernel) where
  open kernel use {State, Address}

  -- A step that gave 0, or the descriptor is closed.
  abbrev or_close : ℕ → (State → Option ℕ × State) → Bool × State → Option ℕ × State
  or_close fd next (true, s) = next s
  or_close fd next (false, s) = (none, kernel.close fd s)

  abbrev listening : ℕ → ℕ → State → Option ℕ × State
  listening fd backlog s = or_close fd (λ s. (some fd, s)) (kernel.listen fd backlog s)

  -- The port is cast to 16 bits.
  abbrev bound : ℕ → Family → ℕ → ℕ → State → Option ℕ × State
  bound fd family port backlog s =
      or_close fd (listening fd backlog) (kernel.bind fd family (port % 2 ^ 16) s)

  abbrev prepared : ℕ → Family → State → State
  prepared fd ipv4 s = kernel.set_option fd reuse_addr s
  prepared fd ipv6 s = kernel.set_option fd v6only_off (kernel.set_option fd reuse_addr s)

  abbrev on_socket : Family → ℕ → ℕ → Option ℕ × State → Option ℕ × State
  on_socket family port backlog (none, s) = (none, s)
  on_socket family port backlog (some fd, s) = bound fd family port backlog (prepared fd family s)

  -- Where there is no IPv6 socket, an IPv4 one.
  abbrev or_ipv4 : ℕ → ℕ → Option ℕ × State → Option ℕ × State
  or_ipv4 port backlog (none, s) = on_socket ipv4 port backlog (kernel.socket ipv4 s)
  or_ipv4 port backlog (some fd, s) = on_socket ipv6 port backlog (some fd, s)

  unfoldable pub listen_on : ℕ → ℕ → State → Option ℕ × State
  listen_on port backlog s = or_ipv4 port backlog (kernel.socket ipv6 s)

  abbrev without_delay : Option ℕ × State → Option ℕ × State
  without_delay (none, s) = (none, s)
  without_delay (some fd, s) = (some fd, kernel.set_option fd no_delay s)

  unfoldable pub accept_connection : ℕ → State → Option ℕ × State
  accept_connection listen_fd s = without_delay (kernel.accept listen_fd s)

  -- A try at an address, and what is done where it fails.
  abbrev or_next : (State → Option ℕ × State) → ℕ → Bool × State → Option ℕ × State
  or_next next fd (true, s) = (some fd, s)
  or_next next fd (false, s) = next (kernel.close fd s)

  abbrev try_on : (State → Option ℕ × State) → Address → Option ℕ × State → Option ℕ × State
  try_on next address (none, s) = next s
  try_on next address (some fd, s) = or_next next fd (kernel.connect fd address s)

  unfoldable pub try_addresses : List Address → State → Option ℕ × State
  try_addresses [] s = (none, s)
  try_addresses (a ∷ as_left) s = try_on (try_addresses as_left) a (kernel.socket_for a s)

  abbrev resolved : Option (List Address) × State → Option ℕ × State
  resolved (none, s) = (none, s)
  resolved (some addresses, s) = without_delay (try_addresses addresses s)

  unfoldable pub connect_to : Bytes → ℕ → State → Option ℕ × State
  unfolding try_addresses to_string
  connect_to host port s = resolved (kernel.getaddrinfo host (to_string port) s)
