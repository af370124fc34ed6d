-- ===== src/Gateway/Registry/Unordered.antt =====
-- The device table of src/gateway.c without its order: a quotient of the tables in which the operations
-- on different clients commute.
use mathlib.Core.Quot
use mathlib.Core.Option
use linux_file_manager.Prelude.{
  All-append, Bool-cases, List, Option, [], ap, arith, if◌then◌else◌, inl, inr, leb, length-append,
  none, some, sym, ℕ, ◌+◌, ◌<◌, ◌==◌, ◌∙◌, ◌∷◌, ◌≡◌, ◌≢◌, ◌≤◌,
}
use linux_file_manager.Gateway.{
  GatewayCtx, GatewayDevice, add_device, device_count, gateway_max_clients, new_device,
  remove_device, update_device_activity,
}
use linux_file_manager.Gateway.Registry.{
  HasNoFd, HasNoFd-remove_fd, HasNoFd-touch_fd, IsValid, add_device-IsValid, add_device_refines,
  length-remove_fd, length-touch_fd, lookup_fd, remove_update-IsValid, remove_update_refine,
  touched,
}

-- Each descriptor has the same device.
abbrev pub SameDevices : List GatewayDevice → List GatewayDevice → Type 0
SameDevices ds es = (k : ℕ) → lookup_fd k ds ≡ lookup_fd k es

abbrev pub Devices : Type 0
Devices = Quot.Quot SameDevices

abbrev pub view : GatewayCtx → Devices
view c = Quot.mk c.devices

-- What a thread does to the table: the accept thread for a new client, and a worker for its own.
pub data TableCall : Type 0 where
  added : ℕ → List ℕ → ℕ → ℕ → TableCall
  removed : ℕ → TableCall
  active : ℕ → ℕ → TableCall

abbrev pub fd_of : TableCall → ℕ
fd_of (added fd ip port now) = fd
fd_of (removed fd) = fd
fd_of (active fd now) = fd

abbrev pub call : TableCall → GatewayCtx → GatewayCtx
call (added fd ip port now) c = (add_device c fd ip port now).1
call (removed fd) c = remove_device c fd
call (active fd now) c = update_device_activity c fd now

-- A new client's descriptor is not in the table.
abbrev pub IsReady : TableCall → GatewayCtx → Type 0
IsReady (added fd ip port now) c = HasNoFd fd c.devices
IsReady (removed fd) c = Unit {0}
IsReady (active fd now) c = Unit {0}

abbrev seen : TableCall → Option GatewayDevice → Option GatewayDevice
seen (added fd ip port now) o = some (new_device fd ip port now)
seen (removed fd) o = none
seen (active fd now) o = Option.map (touched now) o

lookup_fd-call :
    (a : TableCall) (c : GatewayCtx) (k : ℕ)
    → IsValid c
    → IsReady a c
    → device_count c < gateway_max_clients
    → lookup_fd k (call a c).devices
      ≡ (if fd_of a == k then seen a (lookup_fd k c.devices) else lookup_fd k c.devices)
lookup_fd-call (added fd ip port now) c k v fresh room =
    elim (add_device_refines c fd ip port now k v fresh) [
      | inl full ↦ absurd (omega (arith, full.0, room))
      | inr done ↦ done.2
    ]
lookup_fd-call (removed fd) c k v fresh room = (remove_update_refine c fd 0 k v).0
lookup_fd-call (active fd now) c k v fresh room = (remove_update_refine c fd now k v).1

call-IsValid : (a : TableCall) (c : GatewayCtx) → IsValid c → IsReady a c → IsValid (call a c)
call-IsValid (added fd ip port now) c v fresh = add_device-IsValid c fd ip port now v fresh
call-IsValid (removed fd) c v fresh = (remove_update-IsValid c fd 0 v).0
call-IsValid (active fd now) c v fresh = (remove_update-IsValid c fd now v).1

device_count-call : (a : TableCall) (c : GatewayCtx) → device_count (call a c) ≤ device_count c + 1
unfolding add_device update_device_activity remove_device
device_count-call (added fd ip port now) c =
    ground (arith, length-append {0} c.devices (new_device fd ip port now ∷ []))
device_count-call (removed fd) c = omega (arith, length-remove_fd fd c.devices)
device_count-call (active fd now) c = omega (arith, length-touch_fd fd now c.devices)

HasNoFd-call :
    (a : TableCall) (c : GatewayCtx) (k : ℕ)
    → fd_of a ≢ k
    → HasNoFd k c.devices
    → HasNoFd k (call a c).devices
unfolding add_device update_device_activity remove_device
HasNoFd-call (added fd ip port now) c k apart h =
    elim (Bool-cases (leb gateway_max_clients (device_count c))) [
      | inl full ↦ rw (full, call) h
      | inr room ↦
          rw (room, call)
            (All-append (λ d. d.fd ≢ k) c.devices (new_device fd ip port now ∷ []) h (apart, tt))
    ]
HasNoFd-call (removed fd) c k apart h = HasNoFd-remove_fd k fd c.devices h
HasNoFd-call (active fd now) c k apart h = HasNoFd-touch_fd k fd now c.devices h

IsReady-call :
    (a b : TableCall) (c : GatewayCtx) → fd_of a ≢ fd_of b → IsReady b c → IsReady b (call a c)
IsReady-call a (added fd ip port now) c apart h = HasNoFd-call a c fd apart h
IsReady-call a (removed fd) c apart h = tt
IsReady-call a (active fd now) c apart h = tt

-- Both calls, on one client.
both_seen :
    (a b : TableCall) (c : GatewayCtx) (k : ℕ)
    → IsValid c
    → IsReady a c
    → IsReady b c
    → fd_of a ≢ fd_of b
    → device_count c + 1 < gateway_max_clients
    → lookup_fd k (call b (call a c)).devices ≡ (
        if fd_of b == k
        then seen b (if fd_of a == k then seen a (lookup_fd k c.devices) else lookup_fd k c.devices)
        else (if fd_of a == k then seen a (lookup_fd k c.devices) else lookup_fd k c.devices))
both_seen a b c k v ra rb apart room =
    lookup_fd-call b (call a c) k (call-IsValid a c v ra) (IsReady-call a b c apart rb)
      (omega (arith, room, device_count-call a c))
    ∙ ap (λ o. if fd_of b == k then seen b o else o)
        (lookup_fd-call a c k v ra (omega (arith, room)))

-- On a valid table with two free places, with a new client's descriptor not in it: the calls that two
-- threads make for different clients, adding, removing or marking a device as active, leave the same
-- devices, their order in the array aside, whichever thread takes the mutex first.
pub call_comm :
    (a b : TableCall) (c : GatewayCtx)
    → IsValid c
    → IsReady a c
    → IsReady b c
    → fd_of a ≢ fd_of b
    → device_count c + 1 < gateway_max_clients
    → view (call b (call a c)) ≡ view (call a (call b c))
call_comm a b c v ra rb apart room = Quot.sound (λ k.
    both_seen a b c k v ra rb apart room
    ∙ swapped (fd_of a) (fd_of b) k apart (seen a) (seen b) (lookup_fd k c.devices)
    ∙ sym (both_seen b a c k v rb ra (λ e. apart (sym e)) room))
  where
    swapped :
        (x y k : ℕ)
        → x ≢ y
        → (f g : Option GatewayDevice → Option GatewayDevice) (o : Option GatewayDevice)
        → (if y == k then g (if x == k then f o else o) else (if x == k then f o else o))
          ≡ (if x == k then f (if y == k then g o else o) else (if y == k then g o else o))
    swapped x y k apart f g o = ground (arith, apart)
