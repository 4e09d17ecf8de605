-- ===== src/Service/Features.antt =====
-- `available_features`: what the service offers in HELLO, by the callbacks that are registered.
use robusto.Prelude.{ℕ, Bool, ◌&&◌, not, Option, none, some, bit_or, if◌then◌else◌, is_none}
use robusto.Service.{Adapter, Service}

abbrev pub pubsub : ℕ
pubsub = 1

abbrev pub chunked_publish : ℕ
chunked_publish = 2

abbrev pub chunked_delivery : ℕ
chunked_delivery = 4

module _ {A : Type 0} where
  abbrev pub takes_chunks : Adapter A → Bool
  takes_chunks a =
      not (is_none a.publish_begin)
      && (not (is_none a.publish_chunk)
          && (not (is_none a.publish_commit)
              && (not (is_none a.publish_abort) && not (is_none a.session_reset))))

  abbrev pub offered : Option (Adapter A) → ℕ
  offered none = pubsub
  offered (some a) =
      bit_or (if takes_chunks a then bit_or pubsub chunked_publish else pubsub) chunked_delivery

  -- `available_features`
  abbrev pub available_features : Service A → ℕ
  available_features s = offered s.pubsub_adapter
