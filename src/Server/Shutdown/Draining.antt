-- ===== src/Server/Shutdown/Draining.antt =====
-- The order of the shutdown in server.go.
use go_bootstrap.Prelude.{ℕ, suc, ◌≡◌, ◌⊎◌, refl, inl, inr, Bool, true, false}
use go_bootstrap.Server.Shutdown.{
  Main, serving, waiting, stopping, cancelling, finished, broken, Drain, listening, draining,
  drained, State, started, Step, accept, answer, fail_to_listen, signal, close_server,
  close_server_late, shut_down, expire, receive_drained, begin_late, begin_expired, cancel_jobs,
  end_cancelled, stop_jobs, Reach, here, next,
}

-- A Shutdown that was not cut short has left no request in flight.
abbrev Quiet : Drain → ℕ → Type 0
Quiet listening n = Unit
Quiet draining n = Unit
Quiet (drained true) n = Unit
Quiet (drained false) n = n ≡ 0

-- Main is not ahead of the goroutine.
abbrev Behind : Main → Drain → Type 0
Behind serving d = Unit
Behind broken d = Unit
Behind waiting listening = ⊥
Behind waiting draining = Unit
Behind waiting (drained e) = Unit
Behind stopping listening = ⊥
Behind stopping draining = ⊥
Behind stopping (drained e) = Unit
Behind cancelling listening = ⊥
Behind cancelling draining = ⊥
Behind cancelling (drained e) = Unit
Behind finished listening = ⊥
Behind finished draining = ⊥
Behind finished (drained e) = Unit

Quiet-less : (d : Drain) (n : ℕ) → Quiet d (suc n) → Quiet d n
Quiet-less listening n h = tt
Quiet-less draining n h = tt
Quiet-less (drained true) n h = tt
Quiet-less (drained false) n h = cc

Behind-draining : (m : Main) → Behind m listening → Behind m draining
Behind-draining serving h = tt
Behind-draining broken h = tt
Behind-draining waiting h = tt
Behind-draining stopping h = h
Behind-draining cancelling h = h
Behind-draining finished h = h

Behind-drained : (m : Main) (e : Bool) → Behind m draining → Behind m (drained e)
Behind-drained serving e h = tt
Behind-drained broken e h = tt
Behind-drained waiting e h = tt
Behind-drained stopping e h = tt
Behind-drained cancelling e h = tt
Behind-drained finished e h = tt

Behind-finished : (d : Drain) → Behind stopping d → Behind finished d
Behind-finished listening h = h
Behind-finished draining h = h
Behind-finished (drained e) h = tt

Behind-cancelling : (d : Drain) → Behind stopping d → Behind cancelling d
Behind-cancelling listening h = h
Behind-cancelling draining h = h
Behind-cancelling (drained e) h = tt

Behind-cancelled : (d : Drain) → Behind cancelling d → Behind finished d
Behind-cancelled listening h = h
Behind-cancelled draining h = h
Behind-cancelled (drained e) h = tt

abbrev Safe : State → Type 0
Safe s = Quiet s.drain s.in_flight × Behind s.main s.drain

Step-Safe : {s t : State} → Step s t → Safe s → Safe t
Step-Safe (accept n) h = h
Step-Safe (answer m d n) h = (Quiet-less d n h.0, h.1)
Step-Safe (fail_to_listen n) h = (tt, tt)
Step-Safe (signal m n) h = (tt, Behind-draining m h.1)
Step-Safe (close_server n) h = (tt, tt)
Step-Safe (close_server_late e n) h = (h.0, tt)
Step-Safe (shut_down m) h = (refl, Behind-drained m false h.1)
Step-Safe (expire m n) h = (tt, Behind-drained m true h.1)
Step-Safe (receive_drained e n) h = (h.0, tt)
Step-Safe (begin_late m n) h = (tt, h.1)
Step-Safe (begin_expired m n) h = (tt, h.1)
Step-Safe (cancel_jobs d n) h = (h.0, Behind-cancelling d h.1)
Step-Safe (end_cancelled d n) h = (h.0, Behind-cancelled d h.1)
Step-Safe (stop_jobs d n) h = (h.0, Behind-finished d h.1)

Reach-Safe : {s : State} → Reach started s → Safe s
Reach-Safe here = (tt, tt)
Reach-Safe (next r step) = Step-Safe step (Reach-Safe r)

-- main stops the job workers, or has stopped them
abbrev pub is_behind_drained : Main → Bool
is_behind_drained serving = false
is_behind_drained waiting = false
is_behind_drained stopping = true
is_behind_drained cancelling = true
is_behind_drained finished = true
is_behind_drained broken = false

drained-Quiet :
    (m : Main) (d : Drain) (n : ℕ)
    → Quiet d n
    → Behind m d
    → is_behind_drained m ≡ true
    → (d ≡ drained true) ⊎ ((d ≡ drained false) × (n ≡ 0))
drained-Quiet m (drained true) n q b h = inl refl
drained-Quiet m (drained false) n q b h = inr (refl, q)
drained-Quiet serving listening n q b h = cc
drained-Quiet broken listening n q b h = cc
drained-Quiet waiting listening n q b h = cc
drained-Quiet stopping listening n q b h = absurd b
drained-Quiet cancelling listening n q b h = absurd b
drained-Quiet finished listening n q b h = absurd b
drained-Quiet serving draining n q b h = cc
drained-Quiet broken draining n q b h = cc
drained-Quiet waiting draining n q b h = cc
drained-Quiet stopping draining n q b h = absurd b
drained-Quiet cancelling draining n q b h = absurd b
drained-Quiet finished draining n q b h = absurd b

-- In every interleaving of main, the goroutine and the requests, the job workers are stopped behind the
-- end of Shutdown only: when main is at that stop or past it, either the deadline has ended Shutdown, or
-- no request is in flight.
pub jobs_stop-drained :
    (s : State)
    → Reach started s
    → is_behind_drained s.main ≡ true
    → (s.drain ≡ drained true) ⊎ ((s.drain ≡ drained false) × (s.in_flight ≡ 0))
jobs_stop-drained s r h =
    let (quiet, behind) = Reach-Safe r in drained-Quiet s.main s.drain s.in_flight quiet behind h
