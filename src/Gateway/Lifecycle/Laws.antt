-- ===== src/Gateway/Lifecycle/Laws.antt =====
-- What start and stop of src/gateway.c leave behind.
use linux_file_manager.Prelude.{
  Bool, Bool-cases, List, Option, [], ap, append-nil, append_assoc, false, if◌then◌else◌, inl, inr,
  none, refl, some, suc, true, zero, ℕ, ◌++◌, ◌∙◌, ◌∷◌, ◌≡◌, ◌⊎◌,
}
use linux_file_manager.Gateway.{Effect, GatewayCtx, close}
use linux_file_manager.Gateway.Lifecycle.{
  close_devices, close_listen, close_listen_from, fresh_ctx, gateway_init, gateway_run_interactive,
  gateway_stop, join_accept, join_heartbeat, run_started, stop_devices,
}

-- `gateway_init` gives a context exactly when every call succeeds; else it closes the socket that it
-- opened, if it opened one.
pub gateway_init_cases :
    (port : ℕ) (allocated : Bool) (socket : Option ℕ) (bound listening : Bool)
    → ((fd : ℕ) × (allocated ≡ true)
        × (socket ≡ some fd)
        × (bound ≡ true)
        × (listening ≡ true)
        × (gateway_init port allocated socket bound listening ≡ (some (fresh_ctx port fd), [])))
      ⊎ ((gateway_init port allocated socket bound listening).0 ≡ none)
        × ((allocated ≡ false)
            ⊎ (socket ≡ none)
            ⊎ ((fd : ℕ) × (socket ≡ some fd)
                × ((gateway_init port allocated socket bound listening).1 ≡ close fd ∷ [])))
unfolding gateway_init
gateway_init_cases port false socket bound listening = inr (refl, inl refl)
gateway_init_cases port true none bound listening = inr (refl, inr (inl refl))
gateway_init_cases port true (some fd) true true = inl (fd, refl, refl, refl, refl, refl)
gateway_init_cases port true (some fd) true false = inr (refl, inr (inr (fd, refl, refl)))
gateway_init_cases port true (some fd) false listening = inr (refl, inr (inr (fd, refl, refl)))

join_accept_lem : (c : GatewayCtx) → join_accept c ≡ record c { accept_thread = false }
unfolding join_accept
join_accept_lem c = elim (Bool-cases c.accept_thread) [
  | inl on ↦ ap (λ b. if b then record c { accept_thread = false } else c) on
  | inr off ↦
      ap (λ b. if b then record c { accept_thread = false } else c) off
      ∙ ap (λ b. record c { accept_thread = b }) off
]

join_heartbeat_lem : (c : GatewayCtx) → join_heartbeat c ≡ record c { heartbeat_thread = false }
unfolding join_heartbeat
join_heartbeat_lem c = elim (Bool-cases c.heartbeat_thread) [
  | inl on ↦ ap (λ b. if b then record c { heartbeat_thread = false } else c) on
  | inr off ↦
      ap (λ b. if b then record c { heartbeat_thread = false } else c) off
      ∙ ap (λ b. record c { heartbeat_thread = b }) off
]

-- The sockets that closing the listening socket closes, and what is then in its place.
abbrev pub listen_effects : Option ℕ → List Effect
listen_effects none = []
listen_effects (some zero) = []
listen_effects (some (suc n)) = close (suc n) ∷ []

abbrev listen_left : Option ℕ → Option ℕ
listen_left none = none
listen_left (some zero) = some zero
listen_left (some (suc n)) = none

close_listen_lem :
    (c : GatewayCtx)
    → close_listen c ≡ record c {
      listen_fd = listen_left c.listen_fd;
      trace = c.trace ++ listen_effects c.listen_fd;
    }
unfolding close_listen
close_listen_lem c = go c.listen_fd refl
  where
    go :
        (l : Option ℕ)
        → c.listen_fd ≡ l
        → close_listen_from c l
          ≡ record c { listen_fd = listen_left l; trace = c.trace ++ listen_effects l }
    go none e = rw (append-nil c.trace) (ap (λ l. record c { listen_fd = l }) e)
    go (some zero) e = rw (append-nil c.trace) (ap (λ l. record c { listen_fd = l }) e)
    go (some (suc n)) e = refl

-- The whole of a first `gateway_stop`.
pub gateway_stop_lem :
    (c : GatewayCtx)
    → c.stopped ≡ false
    → gateway_stop c ≡ record c {
      running = false;
      stopped = true;
      listen_fd = listen_left c.listen_fd;
      accept_thread = false;
      heartbeat_thread = false;
      devices = [];
      trace = c.trace ++ listen_effects c.listen_fd ++ close_devices c.devices;
    }
unfolding gateway_stop
gateway_stop_lem c s =
    let x : GatewayCtx = record c { stopped = true; running = false } in
    ap (λ b. if b then c else stop_devices (join_heartbeat (join_accept (close_listen x)))) s
    ∙ ap stop_devices (
        join_heartbeat_lem (join_accept (close_listen x))
        ∙ ap (λ (y : GatewayCtx). record y { heartbeat_thread = false })
            (join_accept_lem (close_listen x)
              ∙ ap (λ (y : GatewayCtx). record y { accept_thread = false }) (close_listen_lem x)))

-- The context after a run and its stop.
abbrev pub finished_ctx : GatewayCtx → Bool → ℕ → GatewayCtx
finished_ctx c pool n = record c {
  pool = pool;
  running = false;
  stopped = true;
  accept_thread = false;
  heartbeat_thread = false;
  listen_fd = none;
  devices = [];
  trace = c.trace ++ close (suc n) ∷ close_devices c.devices;
}

-- Stopping a context that still listens, and one whose listening socket is closed.
pub stop_listening :
    (c : GatewayCtx) (n : ℕ)
    → c.stopped ≡ false
    → c.listen_fd ≡ some (suc n)
    → gateway_stop c ≡ finished_ctx c c.pool n
stop_listening c n s e =
    gateway_stop_lem c s
    ∙ ap
        (λ l. record c {
          running = false;
          stopped = true;
          listen_fd = listen_left l;
          accept_thread = false;
          heartbeat_thread = false;
          devices = [];
          trace = c.trace ++ listen_effects l ++ close_devices c.devices;
        })
        e
    ∙ simp append_assoc

-- A start that fails after the accept thread has closed what it opened.
abort_lem :
    (c : GatewayCtx) (n : ℕ)
    → c.listen_fd ≡ some (suc n)
    → join_accept (close_listen c)
      ≡ record c { listen_fd = none; accept_thread = false; trace = c.trace ++ close (suc n) ∷ [] }
abort_lem c n e =
    join_accept_lem (close_listen c)
    ∙ ap (λ (y : GatewayCtx). record y { accept_thread = false }) (close_listen_lem c)
    ∙ ap
        (λ l. record c {
          listen_fd = listen_left l;
          accept_thread = false;
          trace = c.trace ++ listen_effects l;
        })
        e

run_started-stop :
    (c : GatewayCtx) (n : ℕ) (accept heartbeat console : Bool)
    → c.listen_fd ≡ some (suc n)
    → c.stopped ≡ false
    → gateway_stop (run_started c accept heartbeat console) ≡ finished_ctx c c.pool n
unfolding run_started
run_started-stop c n false heartbeat console e s = stop_listening _ n s e
run_started-stop c n true true true e s = stop_listening _ n s e
run_started-stop c n true true false e s =
    ap gateway_stop (
      join_heartbeat_lem _
      ∙ ap (λ (y : GatewayCtx). record y { heartbeat_thread = false }) (abort_lem _ n e))
    ∙ gateway_stop_lem _ s
    ∙ simp append_assoc
run_started-stop c n true false console e s =
    ap gateway_stop (abort_lem _ n e) ∙ gateway_stop_lem _ s ∙ simp append_assoc

-- Whichever of the three threads can be created: after `gateway_run_interactive` and `gateway_stop`
-- on a context that listens on a positive descriptor, nothing runs, no thread is unjoined, and the
-- table is empty; the listening socket was closed exactly once, and after it the socket of each
-- device with a positive descriptor was shut down and closed once.
pub gateway_run-stop :
    (c : GatewayCtx) (n : ℕ) (pool accept heartbeat console : Bool)
    → c.listen_fd ≡ some (suc n)
    → c.stopped ≡ false
    → gateway_stop (gateway_run_interactive c pool accept heartbeat console) ≡ finished_ctx c pool n
unfolding gateway_run_interactive
gateway_run-stop c n pool accept heartbeat console e s =
    let x : GatewayCtx = record c {
      pool = pool;
      running = true;
      accept_thread = false;
      heartbeat_thread = false;
    } in
    ap
      (λ (l : Option ℕ).
        gateway_stop (elim l [ none ↦ c | some _ ↦ run_started x accept heartbeat console ]))
      e
    ∙ run_started-stop x n accept heartbeat console e s

pub gateway_run_started :
    (c : GatewayCtx) (n : ℕ) (pool : Bool)
    → c.listen_fd ≡ some n
    → gateway_run_interactive c pool true true true
      ≡ record c { pool = pool; running = true; accept_thread = true; heartbeat_thread = true }
unfolding gateway_run_interactive run_started
gateway_run_started c n pool e =
    let x : GatewayCtx = record c {
      pool = pool;
      running = true;
      accept_thread = true;
      heartbeat_thread = true;
    } in
    ap (λ (l : Option ℕ). elim l as (λ _. GatewayCtx) [ none ↦ c | some _ ↦ x ]) e

pub gateway_init_opens :
    (port fd : ℕ) → gateway_init port true (some fd) true true ≡ (some (fresh_ctx port fd), [])
unfolding gateway_init
gateway_init_opens port fd = refl
