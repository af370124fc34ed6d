-- ===== src/Gateway/Pointers.antt =====
-- The pointers that `find_device_by_fd` of src/gateway.c returns without holding the mutex.
use linux_file_manager.Prelude.{
  List, Option-cases, [], arith, get_elem?, inl, inr, length, none, refl, some, suc, sym, zero, ℕ,
  ◌<◌, ◌∙◌, ◌∷◌, ◌≡◌, ◌≢◌, ◌≤◌, ◌⊎◌,
}
use linux_file_manager.Gateway.{
  GatewayCtx, GatewayDevice, device_count, find_device_by_fd, find_fd, remove_device, remove_fd,
}
use linux_file_manager.Gateway.Registry.{HasNoFd, HasUniqueFds, IsValid, lookup_fd}

get_elem?-HasNoFd :
    (fd i : ℕ) (ds : List GatewayDevice) (d : GatewayDevice)
    → HasNoFd fd ds
    → get_elem? ds i ≡ some d
    → d.fd ≢ fd
get_elem?-HasNoFd fd i [] d h e = cc
get_elem?-HasNoFd fd zero (x ∷ ds) d h e = ground (arith, h.0)
get_elem?-HasNoFd fd (suc i) (x ∷ ds) d h e = get_elem?-HasNoFd fd i ds d h.1 e

-- The pointer denotes the device that the map view gives.
pub find_fd-lookup_fd :
    (fd : ℕ) (ds : List GatewayDevice) (i : ℕ)
    → find_fd fd ds ≡ some i
    → (d : GatewayDevice) × (get_elem? ds i ≡ some d)
      × (lookup_fd fd ds ≡ some d)
      × (d.fd ≡ fd)
      × (i < length ds)
unfolding find_fd lookup_fd
find_fd-lookup_fd fd [] i e = cc
find_fd-lookup_fd fd (d ∷ ds) zero e = elim (Option-cases (find_fd fd ds)) [
  | inl miss ↦ (d, refl, ground (arith, miss), ground (arith, miss), omega arith)
  | inr (j, hit) ↦ (d, refl, ground (arith, hit), ground (arith, hit), omega arith)
]
find_fd-lookup_fd fd (d ∷ ds) (suc i) e = elim (Option-cases (find_fd fd ds)) [
  | inl miss ↦ absurd (ground (arith, miss))
  | inr (j, hit) ↦
      let r = find_fd-lookup_fd fd ds i (ground (arith, hit)) in
      (r.0, r.1, ground (arith, hit, r.2), r.3, omega (arith, r.4))
]

pub find_fd-none :
    (fd : ℕ) (ds : List GatewayDevice) → find_fd fd ds ≡ none → lookup_fd fd ds ≡ none
unfolding find_fd lookup_fd
find_fd-none fd [] e = refl
find_fd-none fd (d ∷ ds) e = elim (Option-cases (find_fd fd ds)) [
  | inl miss ↦ ground (arith, miss, find_fd-none fd ds)
  | inr (j, hit) ↦ ground (arith, hit)
]

get_elem?-remove_fd :
    (fd i j : ℕ) (ds : List GatewayDevice)
    → find_fd fd ds ≡ some j
    → j ≤ i
    → get_elem? (remove_fd fd ds) i ≡ get_elem? ds (suc i)
unfolding find_fd remove_fd
get_elem?-remove_fd fd i j [] e le = cc
get_elem?-remove_fd fd zero j (x ∷ ds) e le = elim (Option-cases (find_fd fd ds)) [
  | inl miss ↦ ground (arith, miss)
  | inr (n, hit) ↦ ground (arith, hit)
]
get_elem?-remove_fd fd (suc i) j (x ∷ ds) e le = elim (Option-cases (find_fd fd ds)) [
  | inl miss ↦ ground (arith, miss)
  | inr (n, hit) ↦ ground (arith, hit, get_elem?-remove_fd fd i n ds hit)
]

get_elem?_unique :
    (k i m : ℕ) (ds : List GatewayDevice) (d : GatewayDevice)
    → HasUniqueFds ds
    → find_fd k ds ≡ some i
    → get_elem? ds m ≡ some d
    → d.fd ≡ k
    → m ≡ i
unfolding find_fd
get_elem?_unique k i m [] d u e g same = cc
get_elem?_unique k i zero (x ∷ ds) d u e g same = ground arith
get_elem?_unique k i (suc m) (x ∷ ds) d u e g same = elim (Option-cases (find_fd k ds)) [
  | inl miss ↦ ground (arith, miss, get_elem?-HasNoFd x.fd m ds d u.0 g)
  | inr (n, hit) ↦
      ground (
        arith,
        hit,
        get_elem?_unique k n m ds d u.1 hit g same,
        get_elem?-HasNoFd x.fd m ds d u.0 g,
      )
]

-- `find_device_by_fd` unlocks before its caller uses the pointer. When another thread removes a
-- device that stands earlier in the table meanwhile, the pointer no longer denotes the device that
-- was looked up: whatever stands there has another descriptor.
find_device_by_fd_stale :
    (c : GatewayCtx) (fd k i j : ℕ) (d : GatewayDevice)
    → IsValid c
    → find_device_by_fd c k ≡ some i
    → find_device_by_fd c fd ≡ some j
    → j < i
    → get_elem? (remove_device c fd).devices i ≡ some d
    → d.fd ≢ k
unfolding find_device_by_fd remove_device
find_device_by_fd_stale c fd k i j d v ei ej lt e same =
    let moved = get_elem?-remove_fd fd i j c.devices ej (omega arith) in
    let at : suc i ≡ i =
      get_elem?_unique k i (suc i) c.devices d v.unique ei (sym moved ∙ e) same in
    absurd (omega (arith, at))

-- With no removal in between, the pointer is right: it is in the table, and denotes the device
-- that the descriptor maps to; NULL is returned only for a descriptor that is not in the table.
pub find_device_by_fd_lem :
    (c : GatewayCtx) (fd : ℕ)
    → (find_device_by_fd c fd ≡ none) × (lookup_fd fd c.devices ≡ none)
      ⊎ ((i : ℕ) × (find_device_by_fd c fd ≡ some i)
          × (d : GatewayDevice) × (get_elem? c.devices i ≡ some d)
          × (lookup_fd fd c.devices ≡ some d)
          × (d.fd ≡ fd)
          × (i < device_count c))
unfolding find_device_by_fd
find_device_by_fd_lem c fd = elim (Option-cases (find_fd fd c.devices)) [
  | inl e ↦ inl (e, find_fd-none fd c.devices e)
  | inr (i, e) ↦ let r = find_fd-lookup_fd fd c.devices i e in inr (i, e, r.0, r.1, r.2, r.3, r.4)
]
