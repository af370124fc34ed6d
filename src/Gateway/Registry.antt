-- ===== src/Gateway/Registry.antt =====
-- The device table and the handler list of src/gateway.c as finite maps, and their invariant.
pub mod Unordered
use mathlib.Core.Option
use linux_file_manager.Prelude.{
  ==-false, All, All-append, Bool-cases, List, Option, [], arith, false, if◌then◌else◌, inl, inr,
  leb, length, length-append, none, refl, some, subst, sym, true, ℕ, ◌++◌, ◌<◌, ◌==◌, ◌∷◌, ◌≡◌, ◌≢◌,
  ◌≤◌, ◌⊎◌,
}
use linux_file_manager.Gateway.{
  GatewayCtx, GatewayDevice, add_device, device_count, gateway_max_clients, new_device,
  remove_device, remove_fd, touch_fd, update_device_activity,
}

-- The abstract view: the device of a descriptor.
unfoldable pub lookup_fd : ℕ → List GatewayDevice → Option GatewayDevice
lookup_fd k [] = none
lookup_fd k (d ∷ ds) = if d.fd == k then some d else lookup_fd k ds

abbrev pub HasNoFd : ℕ → List GatewayDevice → Type 0
HasNoFd fd ds = All (λ d. d.fd ≢ fd) ds

abbrev pub HasUniqueFds : List GatewayDevice → Type 0
HasUniqueFds [] = Unit {0}
HasUniqueFds (d ∷ ds) = HasNoFd d.fd ds × HasUniqueFds ds

-- The table fits its array, and no descriptor is in it twice.
pub record IsValid (c : GatewayCtx) : Type 0 where
  pub bounded : device_count c ≤ gateway_max_clients
  pub unique : HasUniqueFds c.devices

pub lookup_fd-none : (k : ℕ) (ds : List GatewayDevice) → HasNoFd k ds → lookup_fd k ds ≡ none
unfolding lookup_fd
lookup_fd-none k [] h = refl
lookup_fd-none k (d ∷ ds) h = rw (==-false d.fd k h.0) (lookup_fd-none k ds h.1)

lookup_fd-append :
    (k : ℕ) (ds : List GatewayDevice) (e : GatewayDevice)
    → HasNoFd e.fd ds
    → lookup_fd k (ds ++ e ∷ []) ≡ (if e.fd == k then some e else lookup_fd k ds)
unfolding lookup_fd
lookup_fd-append k [] e h = refl
lookup_fd-append k (d ∷ ds) e h = ground (arith, lookup_fd-append k ds e h.1, h.0)

lookup_fd-remove_fd :
    (k fd : ℕ) (ds : List GatewayDevice)
    → HasUniqueFds ds
    → lookup_fd k (remove_fd fd ds) ≡ (if fd == k then none else lookup_fd k ds)
unfolding lookup_fd remove_fd
lookup_fd-remove_fd k fd [] u = ground arith
lookup_fd-remove_fd k fd (d ∷ ds) u = ground (arith, lookup_fd-remove_fd k fd ds u.1, same)
  where
    same : d.fd ≡ k → lookup_fd k ds ≡ none
    same e = lookup_fd-none k ds (subst (λ x. HasNoFd x ds) e u.0)

abbrev pub touched : ℕ → GatewayDevice → GatewayDevice
touched now d = record d { last_active_time = now }

pub lookup_fd-touch_fd :
    (k fd now : ℕ) (ds : List GatewayDevice)
    → lookup_fd k (touch_fd fd now ds)
      ≡ (if fd == k then Option.map (touched now) (lookup_fd k ds) else lookup_fd k ds)
unfolding lookup_fd touch_fd
lookup_fd-touch_fd k fd now [] = ground arith
lookup_fd-touch_fd k fd now (d ∷ ds) = ground (arith, lookup_fd-touch_fd k fd now ds)

pub HasNoFd-remove_fd :
    (k fd : ℕ) (ds : List GatewayDevice) → HasNoFd k ds → HasNoFd k (remove_fd fd ds)
unfolding remove_fd
HasNoFd-remove_fd k fd [] h = tt
HasNoFd-remove_fd k fd (d ∷ ds) h = ground (arith, HasNoFd-remove_fd k fd ds h.1)

HasUniqueFds-remove_fd :
    (fd : ℕ) (ds : List GatewayDevice) → HasUniqueFds ds → HasUniqueFds (remove_fd fd ds)
unfolding remove_fd
HasUniqueFds-remove_fd fd [] u = tt
HasUniqueFds-remove_fd fd (d ∷ ds) u =
    ground (arith, HasUniqueFds-remove_fd fd ds u.1, HasNoFd-remove_fd d.fd fd ds u.0)

pub length-remove_fd : (fd : ℕ) (ds : List GatewayDevice) → length (remove_fd fd ds) ≤ length ds
unfolding remove_fd
length-remove_fd fd [] = omega arith
length-remove_fd fd (d ∷ ds) = ground (arith, length-remove_fd fd ds)

pub HasNoFd-touch_fd :
    (k fd now : ℕ) (ds : List GatewayDevice) → HasNoFd k ds → HasNoFd k (touch_fd fd now ds)
unfolding touch_fd
HasNoFd-touch_fd k fd now [] h = tt
HasNoFd-touch_fd k fd now (d ∷ ds) h = ground (arith, HasNoFd-touch_fd k fd now ds h.1)

HasUniqueFds-touch_fd :
    (fd now : ℕ) (ds : List GatewayDevice) → HasUniqueFds ds → HasUniqueFds (touch_fd fd now ds)
unfolding touch_fd
HasUniqueFds-touch_fd fd now [] u = tt
HasUniqueFds-touch_fd fd now (d ∷ ds) u =
    ground (arith, HasUniqueFds-touch_fd fd now ds u.1, HasNoFd-touch_fd d.fd fd now ds u.0)

pub length-touch_fd :
    (fd now : ℕ) (ds : List GatewayDevice) → length (touch_fd fd now ds) ≡ length ds
unfolding touch_fd
length-touch_fd fd now [] = refl
length-touch_fd fd now (d ∷ ds) = ground (arith, length-touch_fd fd now ds)

HasUniqueFds-append :
    (ds : List GatewayDevice) (e : GatewayDevice)
    → HasUniqueFds ds
    → HasNoFd e.fd ds
    → HasUniqueFds (ds ++ e ∷ [])
HasUniqueFds-append [] e u h = (tt, tt)
HasUniqueFds-append (d ∷ ds) e u h = (
  All-append (λ x. x.fd ≢ d.fd) ds (e ∷ []) u.0 ((λ p. h.0 (sym p)), tt),
  HasUniqueFds-append ds e u.1 h.1,
)

-- `add_device` with a descriptor that the table does not hold keeps the table within its array and
-- its descriptors distinct.
pub add_device-IsValid :
    (c : GatewayCtx) (fd : ℕ) (ip : List ℕ) (port now : ℕ)
    → IsValid c
    → HasNoFd fd c.devices
    → IsValid (add_device c fd ip port now).1
unfolding add_device
add_device-IsValid c fd ip port now v h = ground (
  arith,
  length-append c.devices (new_device fd ip port now ∷ []),
  HasUniqueFds-append c.devices (new_device fd ip port now) v.unique h,
)

-- `remove_device` and `update_device_activity`, with any descriptor, keep the table within its array
-- and its descriptors distinct.
pub remove_update-IsValid :
    (c : GatewayCtx) (fd now : ℕ)
    → IsValid c
    → IsValid (remove_device c fd) × IsValid (update_device_activity c fd now)
unfolding remove_device update_device_activity
remove_update-IsValid c fd now v = (
  record {
    bounded = omega (arith, length-remove_fd fd c.devices, v.bounded);
    unique = HasUniqueFds-remove_fd fd c.devices v.unique;
  },
  record {
    bounded = omega (arith, length-touch_fd fd now c.devices, v.bounded);
    unique = HasUniqueFds-touch_fd fd now c.devices v.unique;
  },
)

-- The table as a finite map: on a valid table, adding a descriptor that is not in it fails and
-- changes nothing when 32 devices are in it, and else maps the descriptor to a fresh record and
-- leaves the other descriptors as they are.
pub add_device_refines :
    (c : GatewayCtx) (fd : ℕ) (ip : List ℕ) (port now k : ℕ)
    → IsValid c
    → HasNoFd fd c.devices
    → (device_count c ≡ gateway_max_clients) × (add_device c fd ip port now ≡ (false, c))
      ⊎ (device_count c < gateway_max_clients)
        × ((add_device c fd ip port now).0 ≡ true)
        × (lookup_fd k (add_device c fd ip port now).1.devices
            ≡ (if fd == k then some (new_device fd ip port now) else lookup_fd k c.devices))
unfolding add_device
add_device_refines c fd ip port now k v h =
    elim (Bool-cases (leb gateway_max_clients (device_count c))) [
      | inl full ↦ inl (ground (arith, v.bounded), rw full)
      | inr room ↦ inr (
        ground arith,
        rw room,
        rw room (lookup_fd-append k c.devices (new_device fd ip port now) h),
      )
    ]

-- On a valid table, removing a descriptor unmaps it, and activity sets the time of its device if it
-- has one; the other descriptors stay as they are.
pub remove_update_refine :
    (c : GatewayCtx) (fd now k : ℕ)
    → IsValid c
    → (lookup_fd k (remove_device c fd).devices ≡ (if fd == k then none else lookup_fd k c.devices))
      × (lookup_fd k (update_device_activity c fd now).devices ≡ (
          if fd == k
          then Option.map (touched now) (lookup_fd k c.devices)
          else lookup_fd k c.devices))
unfolding remove_device update_device_activity
remove_update_refine c fd now k v =
    (lookup_fd-remove_fd k fd c.devices v.unique, lookup_fd-touch_fd k fd now c.devices)
