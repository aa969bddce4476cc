-- ===== src/Client/Lifecycle.antt =====
-- src/client.rs: `try_init` and `shutdown`: the one global client and its worker.
use chalk_metrics.Client.{
  MetricsClientBuilder, Thread, Process, build_inner, try_init, shutdown, shutdown_client,
  notify_nth, length_of,
}
use chalk_metrics.Deps.{Channel, HashTable}
use chalk_metrics.Float.{Float}
use chalk_metrics.Prelude.{
  ◌≡◌, refl, ap, Bool, true, false, List, [], ◌∷◌, ◌++◌, none, inl, inr, Bool-cases,
}

module _ ⦃fl : Float⦄ ⦃ht : HashTable⦄ ⦃ch : Channel⦄ where
  open fl use {F}

  -- The thread that a builder spawns.
  abbrev pub thread_of : MetricsClientBuilder F → Bool → Thread
  thread_of b notified = record {
    exporters = b.exporters;
    flush_interval = b.flush_interval;
    threads = b.worker_threads;
    notified = notified;
  }

  notify_nth-last :
      (ts : List Thread) (t : Thread)
      → notify_nth (length_of ts) (ts ++ t ∷ []) ≡ ts ++ record t { notified = true } ∷ []
  unfolding notify_nth length_of
  notify_nth-last [] t = refl
  notify_nth-last (s ∷ ts) t = ap (◌∷◌ s) (notify_nth-last ts t)

  -- In a process without a client and without a shutdown so far, `try_init` succeeds, and a
  -- shutdown behind it leaves the threads as they were but for the new worker, which has been
  -- notified.
  pub shutdown-try_init :
      (b : MetricsClientBuilder F) (p : Process)
      → p.global ≡ none
      → p.shutdown_called ≡ false
      → ((shutdown (try_init b p).1).spawned ≡ p.spawned ++ thread_of b true ∷ [])
        × ((try_init b p).0 ≡ none)
  unfolding shutdown try_init build_inner shutdown_client
  shutdown-try_init b p absent fresh =
      (rw (absent, fresh) (notify_nth-last p.spawned (thread_of b false)), rw absent)

  -- In a process without a client, let a shutdown come before the initialisation. The
  -- initialisation succeeds and spawns its worker, and a later shutdown changes nothing: the worker
  -- is never notified.
  pub shutdown-early :
      (b : MetricsClientBuilder F) (p : Process)
      → p.global ≡ none
      → ((try_init b (shutdown p)).0 ≡ none)
        × ((shutdown (try_init b (shutdown p)).1) ≡ (try_init b (shutdown p)).1)
        × ((try_init b (shutdown p)).1.spawned ≡ p.spawned ++ thread_of b false ∷ [])
  unfolding shutdown try_init build_inner
  shutdown-early b p absent = elim (Bool-cases p.shutdown_called) [
    | inl called ↦ (
      rw (called, absent),
      simp (called, absent, shutdown, try_init, build_inner),
      rw (called, absent),
    )
    | inr fresh ↦ (
      rw (fresh, absent),
      simp (fresh, absent, shutdown, try_init, build_inner),
      rw (fresh, absent),
    )
  ]
