-- ===== src/Merger/Program/Shutdown.antt =====
-- Who is stopped and who is waited for at the end of the program.
use bsas_sc.Common.{◌<◌, ◌≤◌, Bool, false, ◌≡◌, if◌then◌else◌, List, [], ◌∷◌, ◌++◌}
use bsas_sc.Merger.Queue.{queue_size}
use bsas_sc.Merger.Program.{Worker, listener, reactor, Workers}

-- The reactor, where the listener ended first.
abbrev pub joined_by : Worker → Bool → List Worker
joined_by listener running = if running then reactor ∷ [] else []
joined_by reactor running = []

-- What `main` makes of the threads once one of them has ended.
pub record Stopped (first : Worker) (s t : Workers) : Type 0 where
  pub listener_stopped : t.listener_running ≡ false
  pub reactor_stopped : t.reactor_running ≡ false
  pub joined : t.joined ≡ s.joined ++ joined_by first s.reactor_running

-- Whether `main` can go on: it must put an item into the queue of the listener if the reactor ended first.
abbrev pub GoesOn : Worker → Workers → Type 0
GoesOn listener s = Unit
GoesOn reactor s = s.queued < queue_size

abbrev pub Waits : Worker → Workers → Type 0
Waits listener s = ⊥
Waits reactor s = queue_size ≤ s.queued
