-- ===== src/Gateway/Threads/Sockets.antt =====
-- The client sockets of src/gateway.c over the interleaved threads: who has a descriptor, and when it is
-- closed.
use linux_file_manager.Gateway.Heartbeat.Steps.{Heart}
use linux_file_manager.Prelude.{
  Bool, List, [], ap, arith, if◌then◌else◌, none, refl, some, sym, ℕ, ◌++◌, ◌+◌, ◌==◌, ◌∙◌, ◌∷◌,
  ◌≡◌, ◌≤◌,
}
use linux_file_manager.Gateway.{GatewayCtx, GatewayDevice, close, emit, remove_device, shutdown}
use linux_file_manager.Gateway.Kept.{
  Keeps, closes, closes-append, fds, fds-append, one_if, times, times-append, times-remove_fd,
}
use linux_file_manager.Gateway.Threads.Counting.{
  is_listed, lists, lists-append, lists_split, times-remove_one, waits, works, works-append,
  works_split,
}
use linux_file_manager.Gateway.Threads.{
  Conn, Phase, Threads, leaving, move, queued, remove_one, started, unlisted,
}

-- A descriptor stands in the table as often as a worker has it that has not taken it out; it is open for
-- one owner, the accept thread or a worker; and it was closed as often as it was given out and is not open.
pub record Inv (s : Threads) : Type 0 where
  pub listed : (k : ℕ) → times k (fds s.ctx.devices) ≡ lists k s.conns
  pub owned : (k : ℕ) → times k s.open_fds ≡ waits k s.accepting + works k s.conns
  pub single : (k : ℕ) → times k s.open_fds ≤ 1
  pub settled : (k : ℕ) → closes k s.ctx.trace + times k s.open_fds ≡ times k s.accepted

pub started-Inv : (c : GatewayCtx) → Inv (started c)
started-Inv c = record {
  listed = λ k. refl;
  owned = λ k. refl;
  single = λ k. omega arith;
  settled = λ k. refl;
}

-- A worker that goes on in its loop.
pub move-Inv :
    (s : Threads) (ls : List Conn) (w : Conn) (rs : List Conn) (p q : Phase) (c : GatewayCtx)
    → s.conns ≡ ls ++ w ∷ rs
    → w.phase ≡ p
    → is_listed p ≡ is_listed q
    → Keeps s.ctx c
    → Inv s
    → Inv (record (move s ls w q rs) { ctx = c })
move-Inv s ls w rs p q c e at_p same keeps inv = record {
  listed = λ k.
      ap (times k) keeps.same_fds
      ∙ inv.listed k
      ∙ lists_split k s.conns ls w rs p e at_p
      ∙ ap (λ (b : Bool). lists k ls + ((if b then one_if (w.fd == k) else 0) + lists k rs)) same
      ∙ sym (lists-append k ls (record w { phase = q } ∷ rs));
  owned = λ k.
      inv.owned k
      ∙ ap (λ n. waits k s.accepting + n)
          (works_split k s.conns ls w rs e ∙ sym (works-append k ls (record w { phase = q } ∷ rs)));
  single = inv.single;
  settled = λ k. ap (λ n. n + times k s.open_fds) (keeps.same_closes k) ∙ inv.settled k;
}

-- A step of a thread that leaves the workers as they are.
pub context-Inv :
    (s : Threads) (h : Heart) (c : GatewayCtx)
    → Keeps s.ctx c
    → Inv s
    → Inv (record s { heart = h; ctx = c })
context-Inv s h c keeps inv = record {
  listed = λ k. ap (times k) keeps.same_fds ∙ inv.listed k;
  owned = inv.owned;
  single = inv.single;
  settled = λ k. ap (λ n. n + times k s.open_fds) (keeps.same_closes k) ∙ inv.settled k;
}

pub accept-Inv :
    (s : Threads) (fd : ℕ)
    → s.accepting ≡ none
    → times fd s.open_fds ≡ 0
    → Inv s
    → Inv (record s { accepting = some fd; open_fds = fd ∷ s.open_fds; accepted = fd ∷ s.accepted })
accept-Inv s fd idle fresh inv = record {
  listed = inv.listed;
  owned = λ k. omega (arith, inv.owned k, ap (waits k) idle);
  single = λ k. ground (arith, inv.single k, fresh);
  settled = λ k. omega (arith, inv.settled k);
}

pub enlist-Inv :
    (s : Threads) (fd : ℕ) (d : GatewayDevice)
    → s.accepting ≡ some fd
    → d.fd ≡ fd
    → Inv s
    → Inv (record s {
      ctx = record s.ctx { devices = s.ctx.devices ++ d ∷ [] };
      accepting = none;
      conns = s.conns ++ record { fd = fd; phase = queued } ∷ [];
    })
enlist-Inv s fd d waiting same inv = record {
  listed = λ k. omega (
    arith,
    inv.listed k,
    ap (times k) (fds-append s.ctx.devices (d ∷ [])),
    times-append k (fds s.ctx.devices) (d.fd ∷ []),
    ap (λ x. one_if (x == k)) same,
    lists-append k s.conns (record { fd = fd; phase = queued } ∷ []),
  );
  owned = λ k. omega (
    arith,
    inv.owned k,
    ap (waits k) waiting,
    works-append k s.conns (record { fd = fd; phase = queued } ∷ []),
  );
  single = inv.single;
  settled = inv.settled;
}

pub refuse-Inv :
    (s : Threads) (fd : ℕ)
    → s.accepting ≡ some fd
    → Inv s
    → Inv (record s {
      ctx = emit s.ctx (close fd ∷ []);
      accepting = none;
      open_fds = remove_one fd s.open_fds;
    })
refuse-Inv s fd waiting inv = record {
  listed = inv.listed;
  owned = λ k. omega (arith, inv.owned k, ap (waits k) waiting, times-remove_one k fd s.open_fds);
  single = λ k. omega (arith, inv.single k, times-remove_one k fd s.open_fds);
  settled = λ k. omega (
    arith,
    inv.owned k,
    ap (waits k) waiting,
    inv.settled k,
    times-remove_one k fd s.open_fds,
    closes-append k s.ctx.trace (close fd ∷ []),
  );
}

pub unlist-Inv :
    (s : Threads) (ls : List Conn) (w : Conn) (rs : List Conn)
    → s.conns ≡ ls ++ w ∷ rs
    → w.phase ≡ leaving
    → Inv s
    → Inv (record (move s ls w unlisted rs) { ctx = remove_device s.ctx w.fd })
unfolding remove_device
unlist-Inv s ls w rs e at_p inv = record {
  listed = λ k. omega (
    arith,
    inv.listed k,
    lists_split k s.conns ls w rs leaving e at_p,
    lists-append k ls (record w { phase = unlisted } ∷ rs),
    times-remove_fd k w.fd s.ctx.devices,
  );
  owned = λ k. omega (
    arith,
    inv.owned k,
    works_split k s.conns ls w rs e,
    works-append k ls (record w { phase = unlisted } ∷ rs),
  );
  single = inv.single;
  settled = inv.settled;
}

pub finish-Inv :
    (s : Threads) (ls : List Conn) (w : Conn) (rs : List Conn)
    → s.conns ≡ ls ++ w ∷ rs
    → w.phase ≡ unlisted
    → Inv s
    → Inv (record s {
      ctx = emit s.ctx (shutdown w.fd ∷ close w.fd ∷ []);
      conns = ls ++ rs;
      open_fds = remove_one w.fd s.open_fds;
    })
finish-Inv s ls w rs e at_p inv = record {
  listed = λ k.
      omega
        (arith, inv.listed k, lists_split k s.conns ls w rs unlisted e at_p, lists-append k ls rs);
  owned = λ k. omega (
    arith,
    inv.owned k,
    works_split k s.conns ls w rs e,
    works-append k ls rs,
    times-remove_one k w.fd s.open_fds,
  );
  single = λ k. omega (arith, inv.single k, times-remove_one k w.fd s.open_fds);
  settled = λ k. omega (
    arith,
    inv.settled k,
    inv.owned k,
    works_split k s.conns ls w rs e,
    times-remove_one k w.fd s.open_fds,
    closes-append k s.ctx.trace (shutdown w.fd ∷ close w.fd ∷ []),
  );
}
