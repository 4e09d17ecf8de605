-- ===== src/Pubsub/Messages.antt =====
-- components/robusto/proxy/include/robusto_proxy_pubsub.h: the messages. A pointer is NULL, or the
-- bytes from it on.
use robusto.Prelude.{ℕ, Option, List}

pub record PublishRequest : Type 0 where
  pub operation_id : ℕ
  pub topic : Option (List ℕ)
  pub topic_length : ℕ
  pub content : Option (List ℕ)
  pub data_length : ℕ

pub record PublishBeginRequest : Type 0 where
  pub operation_id : ℕ
  pub topic : Option (List ℕ)
  pub topic_length : ℕ
  pub data_length : ℕ

pub record PublishChunkRequest : Type 0 where
  pub operation_id : ℕ
  pub offset : ℕ
  pub content : Option (List ℕ)
  pub data_length : ℕ

pub record PublishTransferRequest : Type 0 where
  pub operation_id : ℕ

pub record SubscribeRequest : Type 0 where
  pub operation_id : ℕ
  pub topic : Option (List ℕ)
  pub topic_length : ℕ
  pub options : ℕ

pub record UnsubscribeRequest : Type 0 where
  pub operation_id : ℕ
  pub subscription_id : ℕ

pub record PublishResponse : Type 0 where
  pub topic_hash : ℕ
  pub delivery_count : ℕ

pub record SubscribeResponse : Type 0 where
  pub subscription_id : ℕ
  pub topic_hash : ℕ
  pub created : ℕ

pub record UnsubscribeResponse : Type 0 where
  pub removed : ℕ

pub record StatusResponse : Type 0 where
  pub state : ℕ
  pub active_subscriptions : ℕ
  pub publish_requests : ℕ
  pub subscribe_requests : ℕ
  pub unsubscribe_requests : ℕ
  pub delivery_events : ℕ
  pub delivery_drops : ℕ
  pub duplicate_operations : ℕ
  pub pubsub_errors : ℕ
  pub last_publish_status : ℕ
  pub reserved : ℕ
  pub last_publish_topic_hash : ℕ
  pub last_publish_delivery_count : ℕ
  pub last_publish_bytes : ℕ

pub record Delivery : Type 0 where
  pub subscription_id : ℕ
  pub delivery_sequence : ℕ
  pub content : Option (List ℕ)
  pub data_length : ℕ

pub record DeliveryBegin : Type 0 where
  pub subscription_id : ℕ
  pub delivery_sequence : ℕ
  pub data_length : ℕ

pub record DeliveryChunk : Type 0 where
  pub subscription_id : ℕ
  pub delivery_sequence : ℕ
  pub offset : ℕ
  pub content : Option (List ℕ)
  pub data_length : ℕ

pub record DeliveryCommit : Type 0 where
  pub subscription_id : ℕ
  pub delivery_sequence : ℕ
