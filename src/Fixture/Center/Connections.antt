-- ===== src/Fixture/Center/Connections.antt =====
-- The connections of the center plugin of pluginfixture/plugin.go, with calls that interleave: a call
-- of `Activate` works on a connection of its own outside the lock, and installs it under it; a call
-- of `InvokeUI` works outside the lock on the host that it copied.
use relayward_sdk.Base.{
  ℕ, ◌+◌, ◌≡◌, refl, Bool, true, false, List, [], ◌∷◌, ◌++◌, Option, none, some, Bytes, arith, ltb,
  ◌==◌, is_some, All, ◌≤◌,
}
use mathlib.Core.Path.{subst}
use relayward_sdk.Fixture.Center.{
  CenterPlugin, Network, start, open_connection, close_connection, close_host, install,
}

-- `pending` are the connections of the calls of `Activate` that have not finished. `calls` are
-- those that calls of `InvokeUI` copied under the lock and work on outside it.
pub record World : Type 0 where
  pub plugin : CenterPlugin
  pub network : Network
  pub pending : List ℕ
  pub calls : List ℕ

abbrev pub installed : World → ℕ → List ℕ → World
installed w connection pending = record {
  plugin = (install connection w.plugin w.network).0;
  network = (install connection w.plugin w.network).1;
  pending = pending;
  calls = w.calls;
}

-- A call of `Activate` makes its connection, gives it up because the host did not answer, or
-- installs it; a call of `InvokeUI` copies the host, and returns.
pub data Step : World → World → Type 0 where
  dials :
      (w : World)
      → Step w (record {
        plugin = w.plugin;
        network = open_connection w.network;
        pending = w.network.opened ∷ w.pending;
        calls = w.calls;
      })
  gives_up :
      (w : World) (before after : List ℕ) (connection : ℕ)
      → w.pending ≡ before ++ connection ∷ after
      → Step w (record {
        plugin = w.plugin;
        network = close_connection connection w.network;
        pending = before ++ after;
        calls = w.calls;
      })
  installs :
      (w : World) (before after : List ℕ) (connection : ℕ)
      → w.pending ≡ before ++ connection ∷ after
      → Step w (installed w connection (before ++ after))
  reads :
      (w : World) (connection : ℕ)
      → w.plugin.host ≡ some connection
      → Step w (record w { calls = connection ∷ w.calls })
  returns :
      (w : World) (before after : List ℕ) (connection : ℕ)
      → w.calls ≡ before ++ connection ∷ after
      → Step w (record w { calls = before ++ after })

-- Any number of steps.
pub data Steps : World → World → Type 0 where
  none_left : {w : World} → Steps w w
  then : {u v w : World} → Step u v → Steps v w → Steps u w

-- How often a connection occurs.
abbrev pub one : Bool → ℕ
one true = 1
one false = 0

abbrev pub count : ℕ → List ℕ → ℕ
count n [] = 0
count n (m ∷ rest) = one (n == m) + count n rest

abbrev pub count_host : ℕ → Option ℕ → ℕ
count_host n none = 0
count_host n (some m) = one (n == m)

-- Every connection that was made is in one place, and once: with a call that has not finished, the
-- host of the plugin, or closed. The plugin is active exactly if it has a host. What a call of
-- `InvokeUI` works on is the host, or closed.
pub record Kept (w : World) : Type 0 where
  pub placed :
      (n : ℕ)
      → count n w.pending + (count_host n w.plugin.host + count n w.network.closed)
        ≡ one (ltb n w.network.opened)
  pub has_host : w.plugin.active ≡ is_some w.plugin.host
  pub called : All (λ n. count_host n w.plugin.host + count n w.network.closed ≡ 1) w.calls

count-split :
    (n connection : ℕ) (before after : List ℕ)
    → count n (before ++ connection ∷ after) ≡ one (n == connection) + count n (before ++ after)
count-split n connection [] after = refl
count-split n connection (m ∷ before) after = omega (arith, count-split n connection before after)

opened-one : (n opened : ℕ) → one (n == opened) + one (ltb n opened) ≡ one (ltb n (opened + 1))
opened-one n opened = ground arith

close_host-count :
    (n : ℕ) (host : Option ℕ) (network : Network)
    → count n (close_host host network).closed ≡ count_host n host + count n network.closed
unfolding close_host close_connection
close_host-count n none network = omega arith
close_host-count n (some m) network = refl

close_host-opened :
    (host : Option ℕ) (network : Network) → (close_host host network).opened ≡ network.opened
unfolding close_host close_connection
close_host-opened none network = refl
close_host-opened (some m) network = refl

All-map : {P Q : ℕ → Type 0} → ((n : ℕ) → P n → Q n) → (ns : List ℕ) → All P ns → All Q ns
All-map f [] h = h
All-map f (n ∷ rest) (p, h) = (f n p, All-map f rest h)

All-remove :
    (P : ℕ → Type 0) (before after : List ℕ) (n : ℕ)
    → All P (before ++ n ∷ after)
    → All P (before ++ after)
All-remove P [] after n (p, h) = h
All-remove P (m ∷ before) after n (p, h) = (p, All-remove P before after n h)

one-le : (b : Bool) → one b ≤ 1
one-le true = omega arith
one-le false = omega arith

-- A connection that is the host or closed is not with a call that has not finished.
not_pending :
    (n connection pending settled opened : ℕ)
    → settled ≡ 1
    → one (n == connection) + pending + settled ≡ one (ltb n opened)
    → one (n == connection) ≡ 0
not_pending n connection pending settled opened h e = omega (arith, one-le (ltb n opened))

module _ (v : World) (before after : List ℕ) (connection : ℕ)
    (e : v.pending ≡ before ++ connection ∷ after) (k : Kept v) where
  pending-split : (n : ℕ) → count n v.pending ≡ one (n == connection) + count n (before ++ after)
  pending-split n = rw e (count-split n connection before after)

  apart :
      (n : ℕ)
      → count_host n v.plugin.host + count n v.network.closed ≡ 1
      → one (n == connection) ≡ 0
  apart n h =
      not_pending n connection (count n (before ++ after)) _ v.network.opened h
        (omega (arith, k.placed n, pending-split n))

  gives_up-Kept : Kept (record {
    plugin = v.plugin;
    network = close_connection connection v.network;
    pending = before ++ after;
    calls = v.calls;
  })
  unfolding close_connection
  gives_up-Kept = record {
    placed = λ n. omega (arith, k.placed n, pending-split n);
    has_host = k.has_host;
    called = All-map (λ n h. omega (arith, apart n h)) v.calls k.called;
  }

  installs-Kept : Kept (installed v connection (before ++ after))
  unfolding install
  installs-Kept = record {
    placed = λ n.
        rw (close_host-opened v.plugin.host v.network)
          (omega (arith, k.placed n, pending-split n, close_host-count n v.plugin.host v.network));
    has_host = refl;
    called =
        All-map (λ n h. omega (arith, apart n h, close_host-count n v.plugin.host v.network))
          v.calls k.called;
  }

host-settled :
    (w : World) (connection : ℕ)
    → w.plugin.host ≡ some connection
    → Kept w
    → count_host connection w.plugin.host + count connection w.network.closed ≡ 1
host-settled w connection e k =
    let self : count_host connection w.plugin.host ≡ 1 = rw e (ground arith) in
    omega (arith, k.placed connection, self, one-le (ltb connection w.network.opened))

nothing_opened : (n : ℕ) → 0 ≡ one (ltb n 0)
nothing_opened n = ground arith

-- Every step keeps the connections.
pub Step-Kept : {v w : World} → Step v w → Kept v → Kept w
unfolding open_connection
Step-Kept (dials v) k = record {
  placed = λ n. omega (arith, k.placed n, opened-one n v.network.opened);
  has_host = k.has_host;
  called = k.called;
}
Step-Kept (gives_up v before after connection e) k = gives_up-Kept v before after connection e k
Step-Kept (installs v before after connection e) k = installs-Kept v before after connection e k
Step-Kept (reads v connection e) k = record {
  placed = k.placed;
  has_host = k.has_host;
  called = (host-settled v connection e k, k.called);
}
Step-Kept (returns v before after connection e) k = record {
  placed = k.placed;
  has_host = k.has_host;
  called = All-remove _ before after connection (subst (All _) e k.called);
}

pub start-Kept :
    (plugin_id version : Bytes)
    → Kept (record {
      plugin = start plugin_id version;
      network = record { opened = 0; closed = [] };
      pending = [];
      calls = [];
    })
unfolding start
start-Kept plugin_id version = record {
  placed = λ n. nothing_opened n;
  has_host = refl;
  called = tt;
}
