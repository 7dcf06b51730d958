-- ===== src/Tcp/Descriptors.antt =====
-- Which descriptors are open when a socket has been made, or has not.
use blueboat_cpp.Http.Text.{to_string}
use blueboat_cpp.Tcp.{
  Kernel, Family, ipv4, ipv6, SocketOption, reuse_addr, v6only_off, no_delay, or_close, listening,
  bound, prepared, on_socket, or_ipv4, listen_on, without_delay, accept_connection, or_next, try_on,
  try_addresses, resolved, connect_to,
}
use blueboat_cpp.Base.{
  ℕ, ◌%◌, ◌^◌, ◌≡◌, refl, ap, ◌∙◌, Bool, true, false, Option, none, some, List, [], ◌∷◌, Bytes,
}

module _ (kernel : Kernel) where
  open kernel use {State, Address}

  -- A call that gives a descriptor or none opens that descriptor or none.
  abbrev pub Opens : (State → List ℕ) → State → Option ℕ × State → Type 0
  Opens open_fds s (none, s') = open_fds s' ≡ open_fds s
  Opens open_fds s (some fd, s') = open_fds s' ≡ fd ∷ open_fds s

  -- What the kernel is documented to do to the descriptors that are open, the newest first.
  pub record KernelLaws : Type 0 where
    pub open_fds : State → List ℕ
    pub socket-Opens : (f : Family) (s : State) → Opens open_fds s (kernel.socket f s)
    pub socket_for-Opens : (a : Address) (s : State) → Opens open_fds s (kernel.socket_for a s)
    pub accept-Opens : (fd : ℕ) (s : State) → Opens open_fds s (kernel.accept fd s)
    pub set_option-open_fds :
        (fd : ℕ) (o : SocketOption) (s : State) → open_fds (kernel.set_option fd o s) ≡ open_fds s
    pub bind-open_fds :
        (fd : ℕ) (f : Family) (port : ℕ) (s : State)
        → open_fds (kernel.bind fd f port s).1 ≡ open_fds s
    pub listen-open_fds :
        (fd backlog : ℕ) (s : State) → open_fds (kernel.listen fd backlog s).1 ≡ open_fds s
    pub connect-open_fds :
        (fd : ℕ) (a : Address) (s : State) → open_fds (kernel.connect fd a s).1 ≡ open_fds s
    pub close-open_fds :
        (fd : ℕ) (fds : List ℕ) (s : State)
        → open_fds s ≡ fd ∷ fds
        → open_fds (kernel.close fd s) ≡ fds
    pub getaddrinfo-open_fds :
        (host port : Bytes) (s : State) → open_fds (kernel.getaddrinfo host port s).1 ≡ open_fds s

  module _ (laws : KernelLaws) where
    open laws use {open_fds}

    or_close-Opens :
        (fd : ℕ) (next : State → Option ℕ × State) (s : State) (r : Bool × State)
        → open_fds r.1 ≡ fd ∷ open_fds s
        → ((s' : State) → open_fds s' ≡ fd ∷ open_fds s → Opens open_fds s (next s'))
        → Opens open_fds s (or_close kernel fd next r)
    or_close-Opens fd next s (true, s') e k = k s' e
    or_close-Opens fd next s (false, s') e k = laws.close-open_fds fd (open_fds s) s' e

    bound-Opens :
        (fd : ℕ) (f : Family) (port backlog : ℕ) (s s' : State)
        → open_fds s' ≡ fd ∷ open_fds s
        → Opens open_fds s (bound kernel fd f port backlog s')
    bound-Opens fd f port backlog s s' e =
        or_close-Opens fd (listening kernel fd backlog) s (kernel.bind fd f (port % 2 ^ 16) s')
          (laws.bind-open_fds fd f (port % 2 ^ 16) s' ∙ e)
          (λ s₁ e₁.
            or_close-Opens fd (λ q. (some fd, q)) s (kernel.listen fd backlog s₁)
              (laws.listen-open_fds fd backlog s₁ ∙ e₁) (λ s₂ e₂. e₂))

    prepared-open_fds :
        (fd : ℕ) (f : Family) (s : State) → open_fds (prepared kernel fd f s) ≡ open_fds s
    prepared-open_fds fd ipv4 s = laws.set_option-open_fds fd reuse_addr s
    prepared-open_fds fd ipv6 s =
        laws.set_option-open_fds fd v6only_off (kernel.set_option fd reuse_addr s)
        ∙ laws.set_option-open_fds fd reuse_addr s

    on_socket-Opens :
        (f : Family) (port backlog : ℕ) (s : State) (r : Option ℕ × State)
        → Opens open_fds s r
        → Opens open_fds s (on_socket kernel f port backlog r)
    on_socket-Opens f port backlog s (none, s') e = e
    on_socket-Opens f port backlog s (some fd, s') e =
        bound-Opens fd f port backlog s (prepared kernel fd f s') (prepared-open_fds fd f s' ∙ e)

    Opens-same :
        (s s' : State) (r : Option ℕ × State)
        → open_fds s' ≡ open_fds s
        → Opens open_fds s' r
        → Opens open_fds s r
    Opens-same s s' (none, q) e h = h ∙ e
    Opens-same s s' (some fd, q) e h = h ∙ ap (◌∷◌ fd) e

    or_ipv4-Opens :
        (port backlog : ℕ) (s : State) (r : Option ℕ × State)
        → Opens open_fds s r
        → Opens open_fds s (or_ipv4 kernel port backlog r)
    or_ipv4-Opens port backlog s (none, s') e =
        on_socket-Opens ipv4 port backlog s (kernel.socket ipv4 s')
          (Opens-same s s' (kernel.socket ipv4 s') e (laws.socket-Opens ipv4 s'))
    or_ipv4-Opens port backlog s (some fd, s') e =
        on_socket-Opens ipv6 port backlog s (some fd, s') e

    without_delay-Opens :
        (s : State) (r : Option ℕ × State)
        → Opens open_fds s r
        → Opens open_fds s (without_delay kernel r)
    without_delay-Opens s (none, s') e = e
    without_delay-Opens s (some fd, s') e = laws.set_option-open_fds fd no_delay s' ∙ e

    or_next-Opens :
        (next : State → Option ℕ × State) (fd : ℕ) (s : State) (r : Bool × State)
        → open_fds r.1 ≡ fd ∷ open_fds s
        → ((q : State) → Opens open_fds q (next q))
        → Opens open_fds s (or_next kernel next fd r)
    or_next-Opens next fd s (true, s') e k = e
    or_next-Opens next fd s (false, s') e k =
        Opens-same s (kernel.close fd s') (next (kernel.close fd s'))
          (laws.close-open_fds fd (open_fds s) s' e) (k (kernel.close fd s'))

    try_on-Opens :
        (next : State → Option ℕ × State) (a : Address) (s : State) (r : Option ℕ × State)
        → Opens open_fds s r
        → ((q : State) → Opens open_fds q (next q))
        → Opens open_fds s (try_on kernel next a r)
    try_on-Opens next a s (none, s') e k = Opens-same s s' (next s') e (k s')
    try_on-Opens next a s (some fd, s') e k =
        or_next-Opens next fd s (kernel.connect fd a s') (laws.connect-open_fds fd a s' ∙ e) k

    try_addresses-Opens :
        (addresses : List Address) (s : State) → Opens open_fds s (try_addresses kernel addresses s)
    unfolding try_addresses
    try_addresses-Opens [] s = refl
    try_addresses-Opens (a ∷ more) s =
        try_on-Opens (try_addresses kernel more) a s (kernel.socket_for a s)
          (laws.socket_for-Opens a s) (try_addresses-Opens more)

    resolved-Opens :
        (s : State) (r : Option (List Address) × State)
        → open_fds r.1 ≡ open_fds s
        → Opens open_fds s (resolved kernel r)
    resolved-Opens s (none, s') e = e
    resolved-Opens s (some addresses, s') e =
        without_delay-Opens s (try_addresses kernel addresses s')
          (Opens-same s s' (try_addresses kernel addresses s') e (try_addresses-Opens addresses s'))

    -- With a kernel that does to descriptors as documented, no descriptor is lost: listening,
    -- accepting and connecting each open the one descriptor that they give and no other, and where
    -- they fail, at whatever step and after however many addresses, what they opened is closed.
    pub sockets-Opens :
        (host : Bytes) (port backlog listen_fd : ℕ) (s : State)
        → Opens open_fds s (listen_on kernel port backlog s)
          × Opens open_fds s (accept_connection kernel listen_fd s)
          × Opens open_fds s (connect_to kernel host port s)
    unfolding listen_on accept_connection connect_to
    sockets-Opens host port backlog listen_fd s = (
      or_ipv4-Opens port backlog s (kernel.socket ipv6 s) (laws.socket-Opens ipv6 s),
      without_delay-Opens s (kernel.accept listen_fd s) (laws.accept-Opens listen_fd s),
      resolved-Opens s (kernel.getaddrinfo host (to_string port) s)
          (laws.getaddrinfo-open_fds host (to_string port) s),
    )
