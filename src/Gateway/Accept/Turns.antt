-- ===== src/Gateway/Accept/Turns.antt =====
-- A connection in src/gateway.c gets a device record and a worker, or is closed.
use linux_file_manager.Prelude.{
  Bool, List, [], ap, if◌then◌else◌, inl, inr, some, true, ℕ, ◌==◌, ◌∙◌, ◌∷◌, ◌≡◌, ◌⊎◌,
}
use linux_file_manager.Gateway.{
  GatewayCtx, add_device, close, device_count, emit, gateway_max_clients, new_device,
}
use linux_file_manager.Gateway.Registry.{
  HasNoFd, IsValid, add_device-IsValid, add_device_refines, lookup_fd,
}
use linux_file_manager.Gateway.Accept.{
  AcceptRound, accept_added, accept_ready, accept_turn, client, ended, goes_on, started_worker,
}

-- While the gateway runs, an accepted connection, with a descriptor that the kernel has not given to
-- a device, ends in one of two ways: the table is full, the socket is closed, no worker starts and
-- the table is as it was; or the descriptor maps to a fresh device, every other descriptor to what it
-- mapped to, and a worker starts for it. The table stays valid.
accept_turn_lem :
    (c : GatewayCtx) (fd : ℕ) (ip : List ℕ) (port now k : ℕ)
    → IsValid c
    → HasNoFd fd c.devices
    → c.running ≡ true
    → ((device_count c ≡ gateway_max_clients)
        × (accept_turn c (client fd ip port now) ≡ goes_on (emit c (close fd ∷ []))))
      ⊎ ((c' : GatewayCtx) × (accept_turn c (client fd ip port now) ≡ started_worker fd c')
          × (lookup_fd k c'.devices
              ≡ (if fd == k then some (new_device fd ip port now) else lookup_fd k c.devices))
          × IsValid c')
unfolding accept_turn accept_ready accept_added
accept_turn_lem c fd ip port now k v new run =
    let r : AcceptRound = client fd ip port now in
    let turn : accept_turn c r ≡ accept_added fd (add_device c fd ip port now) =
      ap (λ b. if b then accept_ready c r else ended c) run in
    elim (add_device_refines c fd ip port now k v new) [
      | inl (full, same) ↦ inl (full, turn ∙ ap (accept_added fd) same)
      | inr (room, ok, found) ↦
          let c' : GatewayCtx = (add_device c fd ip port now).1 in
          inr (
            c',
            turn ∙ ap (λ (b : Bool). accept_added fd (b, c')) ok,
            found,
            add_device-IsValid c fd ip port now v new,
          )
    ]
