-- ===== src/Gateway/Threads/Table.antt =====
-- What the interleaved threads of src/gateway.c rely on in the device table and the client sockets, as
-- long as the heartbeat drops nobody.
use mathlib.Core.Option
use linux_file_manager.Prelude.{
  Bool-cases, List, [], ap, arith, get_elem?, inl, inr, not, refl, some, suc, sym, true, ℕ, ◌++◌,
  ◌+◌, ◌==◌, ◌∷◌, ◌≡◌, ◌≤◌,
}
use linux_file_manager.Gateway.{Env, GatewayCtx, GatewayDevice, find_device_by_fd, find_fd}
use linux_file_manager.Gateway.Kept.{closes, fds, times}
use linux_file_manager.Gateway.Registry.{HasNoFd, HasUniqueFds, IsValid}
use linux_file_manager.Gateway.Threads.Counting.{is_listed, lists, lists_split, waits, works}
use linux_file_manager.Gateway.Threads.Room.{Reach-ReachAll, reach_room}
use linux_file_manager.Gateway.Threads.Sockets.{Inv}
use linux_file_manager.Gateway.Threads.Preserved.{reach-Inv}
use linux_file_manager.Gateway.Threads.{Conn, Reach, Threads, started}

lists_le_works : (k : ℕ) (ws : List Conn) → lists k ws ≤ works k ws
lists_le_works k [] = omega arith
lists_le_works k (w ∷ ws) = elim (Bool-cases (is_listed w.phase)) [
  | inl listed ↦ rw listed (omega (arith, lists_le_works k ws))
  | inr not ↦ rw not (omega (arith, lists_le_works k ws))
]

-- Of the descriptors in the table, none stands there more often than it is open.
listed_le_open : (s : Threads) → Inv s → (k : ℕ) → times k (fds s.ctx.devices) ≤ times k s.open_fds
listed_le_open s inv k = omega (arith, inv.listed k, inv.owned k, lists_le_works k s.conns)

times_zero : (k : ℕ) (ds : List GatewayDevice) → times k (fds ds) ≡ 0 → HasNoFd k ds
times_zero k [] z = tt
times_zero k (d ∷ ds) z = (λ e. absurd (ground (arith, z, e)), times_zero k ds (ground (arith, z)))

times_once : (ds : List GatewayDevice) → ((k : ℕ) → times k (fds ds) ≤ 1) → HasUniqueFds ds
times_once [] h = tt
times_once (d ∷ ds) h =
    (times_zero d.fd ds (ground (arith, h d.fd)), times_once ds (λ k. omega (arith, h k)))

-- Where `find_fd` stops.
find_fd_listed :
    (k : ℕ) (ds : List GatewayDevice)
    → 1 ≤ times k (fds ds)
    → (i : ℕ) × (d : GatewayDevice) × (find_fd k ds ≡ some i)
      × (get_elem? ds i ≡ some d)
      × (d.fd ≡ k)
unfolding find_fd
find_fd_listed k [] h = absurd (omega (arith, h))
find_fd_listed k (d ∷ ds) h = elim (Bool-cases (d.fd == k)) [
  | inl hit ↦ (0, d, rw hit refl, refl, ground (arith, hit))
  | inr miss ↦
      let (i, e, at_i, there, same) = find_fd_listed k ds (ground (arith, h, miss)) in
      (suc i, e, rw miss (ap (λ o. Option.map suc o) at_i), there, same)
]

module _ (env : Env) (c : GatewayCtx) where
  -- In every state that the threads reach without a drop by the heartbeat, the table fits its array and
  -- holds no descriptor twice.
  pub reach-IsValid : {s : Threads} → Reach env (started c) s → IsValid s.ctx
  reach-IsValid {s} r = record {
    bounded = reach_room env c (Reach-ReachAll env r);
    unique = times_once s.ctx.devices (λ k. omega (arith, listed_le_open s inv k, inv.single k));
  }
    where
      inv : Inv s
      inv = reach-Inv env c r

  -- In every such state, a descriptor that waits for `add_device` is not in the table.
  pub waiting-HasNoFd :
      {s : Threads} (fd : ℕ)
      → Reach env (started c) s
      → s.accepting ≡ some fd
      → HasNoFd fd s.ctx.devices
  waiting-HasNoFd {s} fd r waiting = times_zero fd s.ctx.devices (
      ground (
        arith,
        inv.listed fd,
        inv.owned fd,
        inv.single fd,
        lists_le_works fd s.conns,
        ap (waits fd) waiting,
      ))
    where
      inv : Inv s
      inv = reach-Inv env c r

  -- In every state that the threads reach without a drop by the heartbeat, `find_device_by_fd` gives a
  -- worker that has not called `remove_device` the index of a record with its descriptor.
  pub worker_finds :
      {s : Threads} (ls : List Conn) (w : Conn) (rs : List Conn)
      → Reach env (started c) s
      → s.conns ≡ ls ++ w ∷ rs
      → is_listed w.phase ≡ true
      → (i : ℕ) × (d : GatewayDevice) × (find_device_by_fd s.ctx w.fd ≡ some i)
        × (get_elem? s.ctx.devices i ≡ some d)
        × (d.fd ≡ w.fd)
  unfolding find_device_by_fd
  worker_finds {s} ls w rs r e on =
      find_fd_listed w.fd s.ctx.devices
        (ground (arith, inv.listed w.fd, lists_split w.fd s.conns ls w rs w.phase e refl, on))
    where
      inv : Inv s
      inv = reach-Inv env c r

  -- In every state that the threads reach without a drop by the heartbeat, a client's descriptor is open
  -- at most once, then for exactly one owner, the accept thread or a worker; and it was closed once for
  -- each time that it was given out, but for the time that it is still open.
  pub sockets_closed_once :
      {s : Threads} (k : ℕ)
      → Reach env (started c) s
      → (times k s.open_fds ≤ 1)
        × (waits k s.accepting + works k s.conns ≡ times k s.open_fds)
        × (closes k s.ctx.trace + times k s.open_fds ≡ times k s.accepted)
  sockets_closed_once {s} k r = (inv.single k, sym (inv.owned k), inv.settled k)
    where
      inv : Inv s
      inv = reach-Inv env c r
