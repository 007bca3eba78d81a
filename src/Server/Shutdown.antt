-- ===== src/Server/Shutdown.antt =====
-- The end of server.go's run, where two goroutines and the server take turns: main serves, waits for
-- `drained`, and stops the job workers; the other waits for a signal, calls Shutdown and closes
-- `drained`. The server is net/http's, as its documentation has it: Shutdown makes ListenAndServe
-- return, no connection is accepted from then on, though one that was accepted before may still bring its
-- request, and it returns when no request is in flight, or at the deadline of its context. jobs.Stop waits
-- for the jobs that run until its own deadline, and behind that cancels them and waits without a deadline;
-- nothing is said of whether they end.
pub mod Draining
use go_bootstrap.Prelude.{
  ℕ, suc, ◌+◌, ◌*◌, ◌≤◌, ◌<◌, ◌≡◌, ◌⊎◌, refl, inl, inr, Bool, true, false, arith, List, [], ◌∷◌,
  length,
}

-- where main stands: in ListenAndServe, at `<-drained`, in the soft stop of jobs.Stop, in its StopAndCancel,
-- or behind it; `broken` is the
-- return of an error of ListenAndServe
pub data Main : Type 0 where
  serving waiting stopping cancelling finished broken : Main

-- where the goroutine stands: at `<-sigC`, in Shutdown, or behind the close of `drained`; `expired` says
-- that the deadline ended Shutdown
pub data Drain : Type 0 where
  listening draining : Drain
  drained : (expired : Bool) → Drain

pub record State : Type 0 where
  pub main : Main
  pub drain : Drain
  -- the requests that are being served
  pub in_flight : ℕ

abbrev pub started : State
started = record { main = serving; drain = listening; in_flight = 0 }

pub data Step : State → State → Type 0 where
  accept :
      (n : ℕ)
      → Step
          (record { main = serving; drain = listening; in_flight = n })
          (record { main = serving; drain = listening; in_flight = suc n })
  answer :
      (m : Main) (d : Drain) (n : ℕ)
      → Step
          (record { main = m; drain = d; in_flight = suc n })
          (record { main = m; drain = d; in_flight = n })
  fail_to_listen :
      (n : ℕ)
      → Step
          (record { main = serving; drain = listening; in_flight = n })
          (record { main = broken; drain = listening; in_flight = n })
  signal :
      (m : Main) (n : ℕ)
      → Step
          (record { main = m; drain = listening; in_flight = n })
          (record { main = m; drain = draining; in_flight = n })
  -- ListenAndServe returns ErrServerClosed
  close_server :
      (n : ℕ)
      → Step
          (record { main = serving; drain = draining; in_flight = n })
          (record { main = waiting; drain = draining; in_flight = n })
  close_server_late :
      (expired : Bool) (n : ℕ)
      → Step
          (record { main = serving; drain = drained expired; in_flight = n })
          (record { main = waiting; drain = drained expired; in_flight = n })
  shut_down :
      (m : Main)
      → Step
          (record { main = m; drain = draining; in_flight = 0 })
          (record { main = m; drain = drained false; in_flight = 0 })
  expire :
      (m : Main) (n : ℕ)
      → Step
          (record { main = m; drain = draining; in_flight = n })
          (record { main = m; drain = drained true; in_flight = n })
  receive_drained :
      (expired : Bool) (n : ℕ)
      → Step
          (record { main = waiting; drain = drained expired; in_flight = n })
          (record { main = stopping; drain = drained expired; in_flight = n })
  -- the first request of a connection that was accepted before Shutdown
  begin_late :
      (m : Main) (n : ℕ)
      → Step
          (record { main = m; drain = draining; in_flight = n })
          (record { main = m; drain = draining; in_flight = suc n })
  -- the same behind a Shutdown that its deadline has ended
  begin_expired :
      (m : Main) (n : ℕ)
      → Step
          (record { main = m; drain = drained true; in_flight = n })
          (record { main = m; drain = drained true; in_flight = suc n })
  -- the soft stop has outlived its context
  cancel_jobs :
      (d : Drain) (n : ℕ)
      → Step
          (record { main = stopping; drain = d; in_flight = n })
          (record { main = cancelling; drain = d; in_flight = n })
  -- the jobs that were cancelled have ended
  end_cancelled :
      (d : Drain) (n : ℕ)
      → Step
          (record { main = cancelling; drain = d; in_flight = n })
          (record { main = finished; drain = d; in_flight = n })
  stop_jobs :
      (d : Drain) (n : ℕ)
      → Step
          (record { main = stopping; drain = d; in_flight = n })
          (record { main = finished; drain = d; in_flight = n })

pub data Reach (s : State) : State → Type 0 where
  here : Reach s s
  next : {t u : State} → Reach s t → Step t u → Reach s u
