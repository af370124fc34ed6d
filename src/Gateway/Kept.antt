-- ===== src/Gateway/Kept.antt =====
-- What the sends of src/gateway.c leave as it is: the descriptors in the table, the sockets that were
-- closed, and what the main thread sets.
use linux_file_manager.Prelude.{
  Bool, Bool-cases, List, Option, [], ap, arith, false, get_elem?, inl, inr, none, refl, set, some,
  suc, sym, true, zero, ℕ, ◌++◌, ◌+◌, ◌-◌, ◌==◌, ◌∙◌, ◌∷◌, ◌≡◌,
}
use linux_file_manager.Protocol.{ProtoFrame}
use linux_file_manager.Gateway.{
  Effect, Env, GatewayCtx, GatewayDevice, close, gateway_send_response, remove_fd, send,
  send_buffer, send_built, send_frame_raw, shutdown, touch_fd, update_device_activity,
}

abbrev pub one_if : Bool → ℕ
one_if true = 1
one_if false = 0

-- How often a number stands in a list.
abbrev pub times : ℕ → List ℕ → ℕ
times k [] = 0
times k (x ∷ xs) = one_if (x == k) + times k xs

pub times-append : (k : ℕ) (xs ys : List ℕ) → times k (xs ++ ys) ≡ times k xs + times k ys
times-append k [] ys = omega arith
times-append k (x ∷ xs) ys = omega (arith, times-append k xs ys)

abbrev pub fds : List GatewayDevice → List ℕ
fds [] = []
fds (d ∷ ds) = d.fd ∷ fds ds

pub fds-append : (ds es : List GatewayDevice) → fds (ds ++ es) ≡ fds ds ++ fds es
fds-append [] es = refl
fds-append (d ∷ ds) es = ap (λ xs. d.fd ∷ xs) (fds-append ds es)

-- How often the trace closes a descriptor.
abbrev pub close_of : ℕ → Effect → ℕ
close_of k (close fd) = one_if (fd == k)
close_of k (shutdown fd) = 0
close_of k (send fd bytes) = 0

abbrev pub closes : ℕ → List Effect → ℕ
closes k [] = 0
closes k (e ∷ es) = close_of k e + closes k es

pub closes-append :
    (k : ℕ) (es es' : List Effect) → closes k (es ++ es') ≡ closes k es + closes k es'
closes-append k [] es' = omega arith
closes-append k (e ∷ es) es' = omega (arith, closes-append k es es')

-- What `gateway_run_interactive` and `gateway_stop` set, and no other thread does.
abbrev pub main_state : GatewayCtx → Option ℕ × Bool × Bool
main_state c = (c.listen_fd, c.stopped, c.running)

pub record Keeps (c c' : GatewayCtx) : Type 0 where
  pub same_fds : fds c'.devices ≡ fds c.devices
  pub same_closes : (k : ℕ) → closes k c'.trace ≡ closes k c.trace
  pub same_main : main_state c' ≡ main_state c

pub Keeps-refl : (c : GatewayCtx) → Keeps c c
Keeps-refl c = record { same_fds = refl; same_closes = λ k. refl; same_main = refl }

pub Keeps-trans : (a b c : GatewayCtx) → Keeps a b → Keeps b c → Keeps a c
Keeps-trans a b c p q = record {
  same_fds = q.same_fds ∙ p.same_fds;
  same_closes = λ k. q.same_closes k ∙ p.same_closes k;
  same_main = q.same_main ∙ p.same_main;
}

-- Another record with the descriptor of the one that it replaces.
pub fds-set :
    (ds : List GatewayDevice) (i : ℕ) (d d' : GatewayDevice)
    → get_elem? ds i ≡ some d
    → d'.fd ≡ d.fd
    → fds (set ds i d') ≡ fds ds
fds-set [] i d d' e same = refl
fds-set (x ∷ ds) zero d d' e same =
    let there : x.fd ≡ d.fd =
      ap (λ (o : Option GatewayDevice). elim o as (λ _. ℕ) [ none ↦ 0 | some y ↦ y.fd ]) e in
    ap (λ y. y ∷ fds ds) (same ∙ sym there)
fds-set (x ∷ ds) (suc i) d d' e same = ap (λ xs. x.fd ∷ xs) (fds-set ds i d d' e same)

pub fds-touch_fd : (fd now : ℕ) (ds : List GatewayDevice) → fds (touch_fd fd now ds) ≡ fds ds
unfolding touch_fd
fds-touch_fd fd now [] = refl
fds-touch_fd fd now (d ∷ ds) = elim (Bool-cases (d.fd == fd)) [
  | inl hit ↦ rw hit refl
  | inr miss ↦ rw miss (ap (λ xs. d.fd ∷ xs) (fds-touch_fd fd now ds))
]

pub update_device_activity-Keeps :
    (c : GatewayCtx) (fd now : ℕ) → Keeps c (update_device_activity c fd now)
unfolding update_device_activity
update_device_activity-Keeps c fd now = record {
  same_fds = fds-touch_fd fd now c.devices;
  same_closes = λ k. refl;
  same_main = refl;
}

pub times-remove_fd :
    (k fd : ℕ) (ds : List GatewayDevice)
    → times k (fds (remove_fd fd ds)) ≡ times k (fds ds) - one_if (fd == k)
unfolding remove_fd
times-remove_fd k fd [] = ground arith
times-remove_fd k fd (d ∷ ds) = ground (arith, times-remove_fd k fd ds)

module _ (env : Env) where
  send_built-Keeps :
      (c : GatewayCtx) (fd : ℕ) (f : Option ProtoFrame) → Keeps c (send_built env c fd f).1
  unfolding send_built
  send_built-Keeps c fd none = Keeps-refl c
  send_built-Keeps c fd (some f) = record {
    same_fds = refl;
    same_main = refl;
    same_closes = λ k.
        omega
          (arith, closes-append k c.trace (send fd (send_buffer env.stack_buf f f.total_len) ∷ []));
  }

  pub send_frame_raw-Keeps :
      (c : GatewayCtx) (fd cmd flags seq : ℕ) (payload : Option (List ℕ)) (len : ℕ)
      → Keeps c (send_frame_raw env c fd cmd flags seq payload len).1
  unfolding send_frame_raw
  send_frame_raw-Keeps c fd cmd flags seq payload len = send_built-Keeps c fd _

  send_built-devices :
      (c : GatewayCtx) (ds : List GatewayDevice) (fd : ℕ) (f : Option ProtoFrame)
      → (send_built env (record c { devices = ds }) fd f).1
        ≡ record (send_built env c fd f).1 { devices = ds }
  unfolding send_built
  send_built-devices c ds fd none = refl
  send_built-devices c ds fd (some f) = refl

  -- A send does not look at the table.
  pub send_frame_raw-devices :
      (c : GatewayCtx) (ds : List GatewayDevice) (fd cmd flags seq : ℕ) (payload : Option (List ℕ))
      (len : ℕ)
      → (send_frame_raw env (record c { devices = ds }) fd cmd flags seq payload len).1
        ≡ record (send_frame_raw env c fd cmd flags seq payload len).1 { devices = ds }
  unfolding send_frame_raw
  send_frame_raw-devices c ds fd cmd flags seq payload len = send_built-devices c ds fd _

  pub gateway_send_response-Keeps :
      (c : GatewayCtx) (fd cmd flags seq : ℕ) (payload : Option (List ℕ)) (len : ℕ)
      → Keeps c (gateway_send_response env c fd cmd flags seq payload len).1
  unfolding gateway_send_response
  gateway_send_response-Keeps c fd cmd flags seq payload len =
      send_frame_raw-Keeps c fd cmd flags seq payload len
