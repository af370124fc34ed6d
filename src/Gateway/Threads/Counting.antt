-- ===== src/Gateway/Threads/Counting.antt =====
-- Counting descriptors over the steps of the gateway's threads.
use linux_file_manager.Prelude.{
  Bool, Bool-cases, List, Option, [], ap, arith, false, if◌then◌else◌, inl, inr, leb, length, none,
  some, sym, true, ℕ, ◌++◌, ◌+◌, ◌-◌, ◌<◌, ◌==◌, ◌∙◌, ◌∷◌, ◌≡◌,
}
use linux_file_manager.Gateway.{GatewayCtx, add_device, gateway_max_clients, new_device}
use linux_file_manager.Gateway.Kept.{one_if, times}
use linux_file_manager.Gateway.Threads.{
  queued, Conn, Phase, found, leaving, reading, remove_one, touched, unlisted,
}

-- Whether the worker's device has not been taken out by the worker.
abbrev pub is_listed : Phase → Bool
is_listed queued = true
is_listed reading = true
is_listed leaving = true
is_listed unlisted = false
is_listed (found i m) = true
is_listed (touched i m) = true

-- How many workers have a descriptor, and how many of them have not taken out its device.
abbrev pub works : ℕ → List Conn → ℕ
works k [] = 0
works k (w ∷ ws) = one_if (w.fd == k) + works k ws

abbrev pub lists : ℕ → List Conn → ℕ
lists k [] = 0
lists k (w ∷ ws) = (if is_listed w.phase then one_if (w.fd == k) else 0) + lists k ws

abbrev pub waits : ℕ → Option ℕ → ℕ
waits k none = 0
waits k (some fd) = one_if (fd == k)

pub works-append : (k : ℕ) (ls rs : List Conn) → works k (ls ++ rs) ≡ works k ls + works k rs
works-append k [] rs = omega arith
works-append k (w ∷ ls) rs = omega (arith, works-append k ls rs)

pub lists-append : (k : ℕ) (ls rs : List Conn) → lists k (ls ++ rs) ≡ lists k ls + lists k rs
lists-append k [] rs = omega arith
lists-append k (w ∷ ls) rs = omega (arith, lists-append k ls rs)

-- The counts where one worker stands among the others.
pub works_split :
    (k : ℕ) (ws ls : List Conn) (w : Conn) (rs : List Conn)
    → ws ≡ ls ++ w ∷ rs
    → works k ws ≡ works k ls + (one_if (w.fd == k) + works k rs)
works_split k ws ls w rs e = ap (works k) e ∙ works-append k ls (w ∷ rs)

pub lists_split :
    (k : ℕ) (ws ls : List Conn) (w : Conn) (rs : List Conn) (ph : Phase)
    → ws ≡ ls ++ w ∷ rs
    → w.phase ≡ ph
    → lists k ws ≡ lists k ls + ((if is_listed ph then one_if (w.fd == k) else 0) + lists k rs)
lists_split k ws ls w rs ph e p =
    ap (lists k) e
    ∙ lists-append k ls (w ∷ rs)
    ∙ ap (λ q. lists k ls + ((if is_listed q then one_if (w.fd == k) else 0) + lists k rs)) p

pub times-remove_one :
    (k fd : ℕ) (xs : List ℕ) → times k (remove_one fd xs) ≡ times k xs - one_if (fd == k)
times-remove_one k fd [] = ground arith
times-remove_one k fd (x ∷ xs) = ground (arith, times-remove_one k fd xs)

-- What `add_device` gives, by its result.
pub add_device_added :
    (c c' : GatewayCtx) (fd : ℕ) (ip : List ℕ) (port now : ℕ)
    → add_device c fd ip port now ≡ (true, c')
    → (c' ≡ record c { devices = c.devices ++ new_device fd ip port now ∷ [] })
      × (length c.devices < gateway_max_clients)
unfolding add_device
add_device_added c c' fd ip port now e =
    let grown : GatewayCtx = record c { devices = c.devices ++ new_device fd ip port now ∷ [] } in
    let by : Bool → Bool × GatewayCtx = λ b. if b then (false, c) else (true, grown) in
    elim (Bool-cases (leb gateway_max_clients (length c.devices))) [
      | inl full ↦ absurd (ground (arith, ap (λ r. r.0) (sym (ap by full) ∙ e)))
      | inr room ↦ (ap (λ r. r.1) (sym e ∙ ap by room), ground (arith, room))
    ]

pub add_device_refused :
    (c c' : GatewayCtx) (fd : ℕ) (ip : List ℕ) (port now : ℕ)
    → add_device c fd ip port now ≡ (false, c')
    → c' ≡ c
unfolding add_device
add_device_refused c c' fd ip port now e =
    let grown : GatewayCtx = record c { devices = c.devices ++ new_device fd ip port now ∷ [] } in
    let by : Bool → Bool × GatewayCtx = λ b. if b then (false, c) else (true, grown) in
    elim (Bool-cases (leb gateway_max_clients (length c.devices))) [
      | inl full ↦ ap (λ r. r.1) (sym e ∙ ap by full)
      | inr room ↦ absurd (ground (arith, ap (λ r. r.0) (sym (ap by room) ∙ e)))
    ]
