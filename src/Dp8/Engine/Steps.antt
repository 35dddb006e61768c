-- ===== src/Dp8/Engine/Steps.antt =====
-- One step of the engine's goroutines (internal/dp8/engine.go), and the runs that they make.
use open_zone.Base.{◌≡◌, List, [], ◌∷◌, ◌++◌}
use open_zone.State.Time.{Time}
use open_zone.Dp8.Engine.{Engine, OutMsg, Event, Sent, handle_event, enqueue, wire, sweep}

-- The engine and what has gone out so far.
pub record World : Type 0 where
  pub engine : Engine
  pub sent : List Sent

-- An event is handled only when the answers to the one before it have been offered to the queue.
pub data Step : World → World → Type 0 where
  handled :
      (evt : Event) (w : World)
      → w.engine.pending ≡ []
      → Step w (record w { engine = handle_event evt w.engine })
  offered :
      (o : OutMsg) (rest : List OutMsg) (w : World)
      → w.engine.pending ≡ o ∷ rest
      → Step w (record w {
        engine = record (w.engine) { pending = rest; out_q = enqueue o w.engine.out_q };
      })
  sends :
      (o : OutMsg) (rest : List OutMsg) (w : World)
      → w.engine.out_q ≡ o ∷ rest
      → Step w
          (record { engine = record (w.engine) { out_q = rest }; sent = w.sent ++ wire o ∷ [] })
  swept : (wall now : Time) (w : World) → Step w (record w { engine = sweep wall now w.engine })

pub data Steps : World → World → Type 0 where
  done : (w : World) → Steps w w
  step : (u v w : World) → Step u v → Steps v w → Steps u w

pub Steps-append : (u v w : World) → Steps u v → Steps v w → Steps u w
Steps-append u v w (done x) t = t
Steps-append u v w (step x y z s r) t = step x y w s (Steps-append y v w r t)
