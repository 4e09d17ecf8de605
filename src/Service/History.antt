-- ===== src/Service/History.antt =====
-- What holds of a service in every history of frames, ticks, events and registrations.
use robusto.Prelude.{ℕ, ◌<◌, ◌^◌, ◌≡◌, refl, Bool, Option, List, AreBytes, length}
use robusto.Protocol.{Profile, max_payload}
use robusto.Service.{Adapter, Service, init, set_pubsub_adapter, set_reboot_handler, tick}
use robusto.Service.Query.{Platform}
use robusto.Service.Event.{build_pubsub_event}
use robusto.Service.Frame.{handle_frame}
use robusto.Service.Sound.{IsSound, IsSoundPlatform, AreSoundCallbacks, kept-IsSound}
use robusto.Service.Steps.{init-IsSound, handle_frame-IsSound, event-IsSound, tick-IsSound}

module _ {A : Type 0} where
  -- A service after some history, with the callbacks' state.
  pub data Reachable (p : Platform A) : Service A → A → Type 0 where
    started :
        (profile : Profile) (boot correlation_seed sequence_seed negotiated now_ms : ℕ) (world : A)
        → sequence_seed < 2 ^ 32
        → Reachable p (init profile boot correlation_seed sequence_seed negotiated now_ms) world
    adapted :
        (s : Service A) (world : A) (adapter : Option (Adapter A))
        → Reachable p s world
        → AreSoundCallbacks adapter
        → Reachable p (set_pubsub_adapter s adapter) world
    rebooting :
        (s : Service A) (world : A) (handler : Option (A → Bool × A))
        → Reachable p s world
        → Reachable p (set_reboot_handler s handler) world
    ticked :
        (s : Service A) (world : A) (now_ms : ℕ)
        → Reachable p s world
        → Reachable p (tick s now_ms).1 world
    served :
        (s : Service A) (world : A) (request : Option (List ℕ)) (size now_ms : ℕ)
        (frame : Option (List ℕ)) (frame_size : ℕ) (old : Option ℕ) (scratch : List ℕ)
        → Reachable p s world
        → length scratch ≡ max_payload
        → AreBytes scratch
        → Reachable p
            (handle_frame p s request size now_ms frame frame_size old scratch world).service
            (handle_frame p s request size now_ms frame frame_size old scratch world).world
    emitted :
        (s : Service A) (world : A) (opcode : ℕ) (payload : Option (List ℕ)) (size : ℕ)
        (frame : Option (List ℕ)) (frame_size : ℕ) (old : Option ℕ)
        → Reachable p s world
        → Reachable p (build_pubsub_event s opcode payload size frame frame_size old).1.1.1 world

  -- The invariant of the service: in every history of ticks, frames, events and registrations, with callbacks
  -- and texts that keep to their types, its table is valid, and an open session keeps to the protocol's limits,
  -- with as many slots as were negotiated.
  pub Reachable-IsSound :
      (p : Platform A) (s : Service A) (world : A)
      → IsSoundPlatform p
      → Reachable p s world
      → IsSound s
  Reachable-IsSound p _ _ platform
        (started profile boot correlation_seed sequence_seed negotiated now_ms world seed) =
      init-IsSound profile boot correlation_seed sequence_seed negotiated now_ms seed
  Reachable-IsSound p _ _ platform (adapted s world adapter r callbacks) =
      let sound = Reachable-IsSound p s world platform r in
      record {
        session = sound.session;
        inflight = sound.inflight;
        callbacks = callbacks;
        capacity = sound.capacity;
      }
  Reachable-IsSound p _ _ platform (rebooting s world handler r) =
      kept-IsSound s _ (refl, refl, refl) (Reachable-IsSound p s world platform r)
  Reachable-IsSound p _ _ platform (ticked s world now_ms r) =
      tick-IsSound s now_ms (Reachable-IsSound p s world platform r)
  Reachable-IsSound p _ _ platform
        (served s world request size now_ms frame frame_size old scratch r long are) =
      handle_frame-IsSound p platform s (Reachable-IsSound p s world platform r) now_ms scratch long
        are world request size frame frame_size old
  Reachable-IsSound p _ _ platform (emitted s world opcode payload size frame frame_size old r) =
      event-IsSound s opcode payload size frame frame_size old
        (Reachable-IsSound p s world platform r)
