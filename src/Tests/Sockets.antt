-- ===== src/Tests/Sockets.antt =====
-- A kernel without IPv6 sockets, where one address of two can be connected to.
use blueboat_cpp.Tcp.{listen_on, Kernel, Family, ipv4, ipv6, accept_connection, connect_to}
use blueboat_cpp.Base.{
  ℕ, refl, ap, Bool, true, false, Option, none, some, List, [], ◌∷◌, codes, length, drop,
}
use blueboat_cpp.Tcp.Descriptors

abbrev fresh : Family → List ℕ → Option ℕ × List ℕ
fresh ipv4 s = (some (length s), length s ∷ s)
fresh ipv6 s = (none, s)

abbrev kernel : Kernel
kernel = record {
  State = List ℕ;
  Address = Bool;
  socket = fresh;
  socket_for = λ a s. (some (length s), length s ∷ s);
  set_option = λ fd o s. s;
  bind = λ fd f port s. (true, s);
  listen = λ fd backlog s. (true, s);
  accept = λ fd s. (some (length s), length s ∷ s);
  connect = λ fd a s. (a, s);
  close = λ fd s. drop 1 s;
  getaddrinfo = λ host port s. (some (false ∷ true ∷ []), s);
}

fresh-Opens :
    (f : Family) (s : List ℕ) → Descriptors.Opens kernel (λ fds. fds) s (kernel.socket f s)
fresh-Opens ipv4 s = refl
fresh-Opens ipv6 s = refl

abbrev kernel_laws : Descriptors.KernelLaws kernel
kernel_laws = record {
  open_fds = λ s. s;
  socket-Opens = fresh-Opens;
  socket_for-Opens = λ a s. refl;
  accept-Opens = λ fd s. refl;
  set_option-open_fds = λ fd o s. refl;
  bind-open_fds = λ fd f port s. refl;
  listen-open_fds = λ fd backlog s. refl;
  connect-open_fds = λ fd a s. refl;
  close-open_fds = λ fd fds s e. ap (drop 1) e;
  getaddrinfo-open_fds = λ host port s. refl;
}

sockets-Opens_example :
    Descriptors.Opens kernel (λ fds. fds) [] (listen_on kernel 80 128 [])
    × Descriptors.Opens kernel (λ fds. fds) [] (accept_connection kernel 0 [])
    × Descriptors.Opens kernel (λ fds. fds) [] (connect_to kernel (codes "h") 80 [])
sockets-Opens_example = Descriptors.sockets-Opens kernel kernel_laws (codes "h") 80 128 0 []
